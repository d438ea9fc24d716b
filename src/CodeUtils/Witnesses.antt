-- ===== src/CodeUtils/Witnesses.antt =====
-- `fuzzy_replace` and the tests of paths at concrete texts.
use alpha_swarm.Prelude.{
  text, text_eq, none, some, true, false, ◌≡◌, refl, is_prefix, trim, ends_with,
}
use alpha_swarm.CodeUtils.{fuzzy_replace, is_code_file, is_valid_file_path, unix_lines}
use alpha_swarm.CodeUtils.Replace.{Outcome, fuzzy_replace-Outcome}

program : Unit {0}
unfolding fuzzy_replace is_code_file is_valid_file_path text_eq is_prefix ends_with
program = tt

exact :
    fuzzy_replace (text "a = 1;\r\nb = 1;\n") (text " 1; ") (text "2;")
    ≡ some (text "a = 2;\nb = 2;\n")
unfolding program
exact = refl

-- The spacing of the file differs, and its last line end is lost.
by_line :
    fuzzy_replace (text "fn f() {\n    let x =  1;\n}\n") (text "let x = 1;") (text "let x = 2;")
    ≡ some (text "fn f() {\nlet x = 2;\n}")
unfolding program
by_line = refl

missing : fuzzy_replace (text "let a = 1;\n") (text "let b = 1;") (text "x") ≡ none
unfolding program
missing = refl

is_code : is_code_file (text "src/main.rs") ≡ true
unfolding program
is_code = refl

is_placeholder : is_valid_file_path (λ t. t) (text "path/to/x.rs") ≡ false
unfolding program
is_placeholder = refl

fuzzy_replace-Outcome_example :
    Outcome
      (unix_lines (text "let a = 1;\n"))
      (trim (unix_lines (text "let  a = 1;")))
      (trim (unix_lines (text "x")))
      (fuzzy_replace (text "let a = 1;\n") (text "let  a = 1;") (text "x"))
fuzzy_replace-Outcome_example =
    fuzzy_replace-Outcome (text "let a = 1;\n") (text "let  a = 1;") (text "x")
