-- ===== src/VirtGit/Store/Addressing.antt =====
-- The blob store as a map from hashes to contents: content is found under its own hash.
use alpha_swarm.Prelude.{
  Text, text_eq, text_eq_iff, text_eq_refl, some, true, false, ◌≡◌, refl, sym, arith, Bool-cases,
  if◌then◌else◌, Option-cases, inl, inr, if_some-cases, ◌⊎◌, is_utf8, ◌∙◌, ap, subst,
}
use alpha_swarm.Prelude.Maps.{get, has_key, has_key-get, get-insert}
use alpha_swarm.VirtGit.Store.{Primitives, MemoryBlobStore, put, get_blob, new_store}

-- Two contents with one hash are equal.
abbrev pub CollisionFree : Primitives → Type 0
CollisionFree p = (a b : Text) → p.content_hash a ≡ p.content_hash b → a ≡ b

-- Each blob is stored under its own hash, and is a valid text.
abbrev pub IsAddressed : Primitives → MemoryBlobStore → Type 0
IsAddressed p s = (h c : Text) → get_blob h s ≡ some c → (p.content_hash c ≡ h) × (is_utf8 c ≡ true)

-- Each blob is stored under its own hash; it may be any bytes.
abbrev pub IsKeyed : Primitives → MemoryBlobStore → Type 0
IsKeyed p s = (h c : Text) → get_blob h s ≡ some c → p.content_hash c ≡ h

pub IsAddressed-IsKeyed : (p : Primitives) (s : MemoryBlobStore) → IsAddressed p s → IsKeyed p s
IsAddressed-IsKeyed p s addressed h c e = (addressed h c e).0

pub new_store-IsAddressed : (p : Primitives) → IsAddressed p new_store
new_store-IsAddressed p h c e = cc

module _ (p : Primitives) (distinct : CollisionFree p) where
  get_blob_after :
      (content h : Text) (s : MemoryBlobStore)
      → IsKeyed p s
      → get_blob h (put p content s).1
        ≡ (if text_eq (p.content_hash content) h then some content else get_blob h s)
  unfolding put
  get_blob_after content h s keyed = elim (Option-cases (get key s.blobs)) [
    | inl absent ↦ ground (arith, (has_key-get key s.blobs).1, get-insert key h content s.blobs)
    | inr (c, found) ↦
        let same : c ≡ content = distinct c content (keyed key c found) in
        elim (Bool-cases (has_key key s.blobs)) [
          | inl has ↦ rw has (stored same found (Bool-cases (text_eq key h)))
          | inr lacks ↦ cc (found, (has_key-get key s.blobs).0 lacks)
        ]
  ]
    where
      key : Text
      key = p.content_hash content

      stored :
          {c : Text}
          → c ≡ content
          → get key s.blobs ≡ some c
          → (text_eq key h ≡ true) ⊎ (text_eq key h ≡ false)
          → get_blob h s ≡ (if text_eq key h then some content else get_blob h s)
      stored same found (inl e) = rw e (
          subst (λ k. get k s.blobs ≡ some content) ((text_eq_iff key h).0 e)
            (found ∙ ap some same))
      stored same found (inr e) = rw e refl

  -- In a store that keeps each blob under its own hash, with a hash that no two contents share: after
  -- a put of any bytes its content is under its hash, every other blob is as it was, and each blob is
  -- again under its own hash.
  pub get_blob-put :
      (content h : Text) (s : MemoryBlobStore)
      → IsKeyed p s
      → (get_blob h (put p content s).1
          ≡ (if text_eq (p.content_hash content) h then some content else get_blob h s))
        × IsKeyed p (put p content s).1
  get_blob-put content h s keyed = (
    get_blob_after content h s keyed,
    λ k c e.
        elim (if_some-cases (text_eq (p.content_hash content) k) content c (get_blob k s)
          (sym (get_blob_after content k s keyed) ∙ e)) [
            | inl (same, is_c) ↦
                ap p.content_hash (sym is_c) ∙ (text_eq_iff (p.content_hash content) k).0 same
            | inr (other, old) ↦ keyed k c old
          ],
  )

  pub put-IsAddressed :
      (content : Text) (s : MemoryBlobStore)
      → is_utf8 content ≡ true
      → IsAddressed p s
      → IsAddressed p (put p content s).1
  put-IsAddressed content s valid addressed h c e =
      elim (if_some-cases (text_eq (p.content_hash content) h) content c (get_blob h s)
        (sym (get_blob_after content h s (IsAddressed-IsKeyed p s addressed)) ∙ e)) [
          | inl (same, is_c) ↦ (
            ap p.content_hash (sym is_c) ∙ (text_eq_iff (p.content_hash content) h).0 same,
            subst (λ t. is_utf8 t ≡ true) is_c valid,
          )
          | inr (other, old) ↦ addressed h c old
        ]

  -- A put keeps every blob.
  pub get_blob-kept :
      (content h c : Text) (s : MemoryBlobStore)
      → IsAddressed p s
      → get_blob h s ≡ some c
      → get_blob h (put p content s).1 ≡ some c
  get_blob-kept content h c s addressed e = elim (Bool-cases (text_eq (p.content_hash content) h)) [
    | inl same ↦
        let is_c : content ≡ c =
          distinct content c
            ((text_eq_iff (p.content_hash content) h).0 same ∙ sym (addressed h c e).0) in
        get_blob_after content h s (IsAddressed-IsKeyed p s addressed) ∙ (rw same (ap some is_c))
    | inr other ↦ get_blob_after content h s (IsAddressed-IsKeyed p s addressed) ∙ (rw other e)
  ]

  -- Content that was put is found under its hash.
  pub get_blob-put_own :
      (content : Text) (s : MemoryBlobStore)
      → IsAddressed p s
      → get_blob (p.content_hash content) (put p content s).1 ≡ some content
  get_blob-put_own content s addressed =
      get_blob_after content (p.content_hash content) s (IsAddressed-IsKeyed p s addressed)
      ∙ (rw (text_eq_refl (p.content_hash content)) refl)
