-- ===== src/EditParser/Samples.antt =====
-- An answer with an edit and a new file, and conditions that are found by evaluation.
use alpha_swarm.Prelude.{
  Text, text, text_eq, List, [], ◌∷◌, refl, chars, is_space, is_prefix, text_find,
}
use alpha_swarm.EditParser.{FileEdit}
use alpha_swarm.EditParser.Print.{IsPath, IsField}

abbrev pub fix : FileEdit
fix = FileEdit.edit (text "a.rs") (text "x") (text "y")

abbrev pub fresh : FileEdit
fresh = FileEdit.create (text "b.rs") (text "fn b() {}")

abbrev pub blocks : List (Text × FileEdit)
blocks = (text "First:", fix) ∷ (text "Then:", fresh) ∷ []

pub this-IsPath : IsPath (text "a.rs")
unfolding text_find is_prefix chars is_space text_eq
this-IsPath = record {
  trimmed = record { starts_char = refl; head_solid = refl; end_kept = refl };
  nonempty = (_, _, refl);
  one_line = refl;
  no_close = refl;
}

pub other-IsPath : IsPath (text "b.rs")
unfolding text_find is_prefix chars is_space text_eq
other-IsPath = record {
  trimmed = record { starts_char = refl; head_solid = refl; end_kept = refl };
  nonempty = (_, _, refl);
  one_line = refl;
  no_close = refl;
}

pub old-IsField : IsField (text "x")
unfolding text_find is_prefix chars is_space text_eq
old-IsField = (record { starts_char = refl; head_solid = refl; end_kept = refl }, refl)

pub new-IsField : IsField (text "y")
unfolding text_find is_prefix chars is_space text_eq
new-IsField = (record { starts_char = refl; head_solid = refl; end_kept = refl }, refl)

pub content-IsField : IsField (text "fn b() {}")
unfolding text_find is_prefix chars is_space text_eq
content-IsField = (record { starts_char = refl; head_solid = refl; end_kept = refl }, refl)
