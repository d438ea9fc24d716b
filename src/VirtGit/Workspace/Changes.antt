-- ===== src/VirtGit/Workspace/Changes.antt =====
-- When a workspace has changes, and that a commit clears them.
use alpha_swarm.Prelude.{
  ℕ, Text, text_eq, text_eq_iff, text_eq_refl, List, [], ◌∷◌, ◌++◌, Option, none, some, true, false,
  ◌≡◌, ◌↔◌, refl, sym, ◌∙◌, arith, Bool-cases, Option-cases, inl, inr, if◌then◌else◌, Distinct,
  if_some-cases, ◌&&◌, not_both, subst, both_of, ap,
}
use alpha_swarm.Prelude.Maps.{Map, get, keys, has_key, has_key-get}
use alpha_swarm.VirtGit.Store.{Primitives}
use alpha_swarm.VirtGit.Tree.{hash}
use alpha_swarm.VirtGit.Workspace.{
  VirtWorkspace, changed_entry, changed_entries, removed_entries, diff_entries, has_changes,
  is_empty, commit,
}

is_empty-append : {A : Type 0} (xs ys : List A) → is_empty (xs ++ ys) ≡ (is_empty xs && is_empty ys)
is_empty-append [] ys = refl
is_empty-append (x ∷ xs) ys = refl

changed_entry_iff :
    (path hash : Text) (o : Option Text)
    → (is_empty (changed_entry path hash o) ≡ true) ↔ (o ≡ some hash)
changed_entry_iff path hash none = ground arith
changed_entry_iff path hash (some b) = ground (arith, text_eq_iff b hash)

kept_of_unchanged :
    (base work : Map Text) (q h : Text)
    → is_empty (changed_entries base work) ≡ true
    → get q work ≡ some h
    → get q base ≡ some h
kept_of_unchanged base [] q h e g = cc
kept_of_unchanged base ((path, hash) ∷ work) q h e g =
    let (now, later) =
      both_of (is_empty (changed_entry path hash (get path base)))
        (is_empty (changed_entries base work))
        (sym (is_empty-append (changed_entry path hash (get path base)) (changed_entries base work))
          ∙ e) in
    elim (if_some-cases (text_eq path q) hash h (get q work) g) [
      | inl (same, is_h) ↦
          subst (λ k. get k base ≡ some h) ((text_eq_iff path q).0 same)
            ((changed_entry_iff path hash (get path base)).0 now ∙ ap some is_h)
      | inr (other, found) ↦ kept_of_unchanged base work q h later found
    ]

unchanged_of_kept :
    (base work : Map Text)
    → Distinct (keys work)
    → ((q h : Text) → get q work ≡ some h → get q base ≡ some h)
    → is_empty (changed_entries base work) ≡ true
unchanged_of_kept base [] d kept = refl
unchanged_of_kept base ((path, hash) ∷ work) d kept =
    rw
      (
        is_empty-append (changed_entry path hash (get path base)) (changed_entries base work),
        (changed_entry_iff path hash (get path base)).1
            (kept path hash (rw (text_eq_refl path) refl)),
      )
      (unchanged_of_kept base work d.1 λ q h g. kept q h (later q h g))
  where
    later : (q h : Text) → get q work ≡ some h → get {A = Text} q ((path, hash) ∷ work) ≡ some h
    later q h g = elim (Bool-cases (text_eq path q)) [
      | inl same ↦ elim (absent ((text_eq_iff path q).0 same) g) [ ]
      | inr other ↦ rw other g
    ]
      where
        absent : path ≡ q → get q work ≡ some h → ⊥
        absent e g' =
            let nothing : get path work ≡ none = (has_key-get path work).0 d.0 in
            let found : get path work ≡ some h = subst (λ k. get k work ≡ some h) (sym e) g' in cc

removed_iff :
    (base work : Map Text)
    → (is_empty (removed_entries base work) ≡ true)
      ↔ ((q : Text) → has_key q work ≡ false → has_key q base ≡ false)
removed_iff base work = (gone base, none_gone base)
  where
    gone :
        (base : Map Text)
        → is_empty (removed_entries base work) ≡ true
        → (q : Text) → has_key q work ≡ false
        → has_key q base ≡ false
    gone [] e q h = refl
    gone ((path, hash) ∷ base) e q h =
        let (now, later) =
          both_of (is_empty (if has_key path work then [] else path ∷ []))
            (is_empty (removed_entries base work))
            (sym (
                is_empty-append (if has_key path work then [] else path ∷ [])
                  (removed_entries base work))
              ∙ e) in
        let has : has_key path work ≡ true = ground arith in
        elim (Bool-cases (text_eq path q)) [
          | inl same ↦
              elim (not_both (has_key q work)
                (subst (λ k. has_key k work ≡ true) ((text_eq_iff path q).0 same) has) h) [ ]
          | inr other ↦ rw other (gone base later q h)
        ]

    none_gone :
        (base : Map Text)
        → ((q : Text) → has_key q work ≡ false → has_key q base ≡ false)
        → is_empty (removed_entries base work) ≡ true
    none_gone [] h = refl
    none_gone ((path, hash) ∷ base) h =
        let has : has_key path work ≡ true = ground (arith, h path, text_eq_refl path) in
        rw has (none_gone base λ q lacks. ground (arith, h q lacks))

get_of_entries :
    (base work : Map Text)
    → ((q h : Text) → get q work ≡ some h → get q base ≡ some h)
    → ((q : Text) → has_key q work ≡ false → has_key q base ≡ false)
    → (q : Text) → get q base ≡ get q work
get_of_entries base work kept gone q = elim (Option-cases (get q work)) [
  | inl absent ↦ (has_key-get q base).0 (gone q ((has_key-get q work).1 absent)) ∙ sym absent
  | inr (h, found) ↦ kept q h found ∙ sym found
]

-- A workspace has no changes just when every path has the same entry in the base and in the
-- working tree, if the working tree has each path once.
pub has_changes_iff :
    (ws : VirtWorkspace)
    → Distinct (keys ws.working.entries)
    → (has_changes ws ≡ false) ↔ ((q : Text) → get q ws.base.entries ≡ get q ws.working.entries)
unfolding has_changes diff_entries
has_changes_iff ws distinct = (left, right)
  where
    base : Map Text
    base = ws.base.entries

    work : Map Text
    work = ws.working.entries

    left : has_changes ws ≡ false → (q : Text) → get q base ≡ get q work
    left e =
        let (kept, gone) =
          both_of (is_empty (changed_entries base work)) (is_empty (removed_entries base work)) (
            sym (is_empty-append (changed_entries base work) (removed_entries base work))
            ∙ (ground arith)) in
        get_of_entries base work (λ q h. kept_of_unchanged base work q h kept)
          ((removed_iff base work).0 gone)

    right : ((q : Text) → get q base ≡ get q work) → has_changes ws ≡ false
    right same =
        rw
          (
            is_empty-append (changed_entries base work) (removed_entries base work),
            unchanged_of_kept base work distinct (λ q h g. same q ∙ g),
            (removed_iff base work).1
                (λ q lacks. (has_key-get q base).1 (same q ∙ (has_key-get q work).0 lacks)),
          )
          refl

pub hash_entries :
    (p : Primitives) (ws : VirtWorkspace) → (hash p ws.working).1.entries ≡ ws.working.entries
unfolding hash
hash_entries p ws = ground arith

-- A commit keeps every file's entry and leaves no changes, if the working tree has each path once.
pub commit_clears :
    (p : Primitives) (now : ℕ) (message : Text) (ws : VirtWorkspace)
    → Distinct (keys ws.working.entries)
    → (has_changes (commit p now message ws).1 ≡ false)
      × ((commit p now message ws).1.working.entries ≡ ws.working.entries)
unfolding commit
commit_clears p now message ws distinct = (
  (has_changes_iff (commit p now message ws).1 (rw (hash_entries p ws) distinct)).1 λ q. refl,
  hash_entries p ws,
)
