-- ===== src/Storage/Memory/Filed/Tables.antt =====
-- Tables of `InMemoryStorage` whose rows stand under their own ids.
use panops.Base.{
  All, All-insert, All-modify, All-mono, All-remove, All-retain, Bool, Dict, Text, [], all, arith,
  insert, modify, refl, remove, retain, text_eq, text_eq_refl, true, ◌∷◌, ◌≡◌, ◌&&◌,
}
use panops.Storage.{Note, Space, Tag}
use panops.Storage.Memory.{Inner}

-- Each row of a table stands under its own id.
abbrev pub files {ℓ} : {V : Type ℓ} → (V → Text) → Dict V → Bool
files {V = V} id_of m = all (λ (e : Text × V). text_eq (id_of e.1) e.0) m

-- The tables of which `IsConsistent` does not say so.
pub record IsFiled (s : Inner) : Type 0 where
  pub space_keys : files (λ (x : Space). x.id) s.spaces ≡ true
  pub note_keys : files (λ (x : Note). x.id) s.notes ≡ true
  pub tag_keys : files (λ (x : Tag). x.id) s.tags ≡ true

module _ {ℓ} {V : Type ℓ} (id_of : V → Text) where
  abbrev Own : Text × V → Type 0
  Own e = text_eq (id_of e.1) e.0 ≡ true

  to_All : (m : Dict V) → files id_of m ≡ true → All Own m
  to_All [] h = tt
  to_All (e ∷ m) h =
      let (own, rest) = both (text_eq (id_of e.1) e.0) (files id_of m) h in (own, to_All m rest)
    where
      both : (p q : Bool) → (p && q) ≡ true → (p ≡ true) × (q ≡ true)
      both p q h = ground arith

  of_All : (m : Dict V) → All Own m → files id_of m ≡ true
  of_All [] h = refl
  of_All (e ∷ m) h = rw (h.0, of_All m h.1) refl

  pub files-insert :
      (k : Text) (v : V) (m : Dict V)
      → id_of v ≡ k
      → files id_of m ≡ true
      → files id_of (insert k v m) ≡ true
  files-insert k v m own h =
      of_All (insert k v m) (All-insert Own k v m (rw own (text_eq_refl k)) (to_All m h))

  pub files-remove :
      (k : Text) (m : Dict V) → files id_of m ≡ true → files id_of (remove k m) ≡ true
  files-remove k m h =
      of_All (remove k m) (All-mono _ _ (remove k m) (λ e p. p.0) (All-remove Own k m (to_All m h)))

  pub files-retain :
      (p : V → Bool) (m : Dict V) → files id_of m ≡ true → files id_of (retain p m) ≡ true
  files-retain p m h =
      of_All (retain p m) (All-mono _ _ (retain p m) (λ e q. q.0) (All-retain Own p m (to_All m h)))

  pub files-modify :
      (k : Text) (change : V → V) (m : Dict V)
      → ((v : V) → id_of (change v) ≡ id_of v)
      → files id_of m ≡ true
      → files id_of (modify k change m) ≡ true
  files-modify k change m same h =
      of_All (modify k change m)
        (All-modify Own k change m (λ j v own. rw (same v) own) (to_All m h))
