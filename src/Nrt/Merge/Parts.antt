-- ===== src/Nrt/Merge/Parts.antt =====
-- Numbers and paths that are given out for the first time, and lists that grow at the end.
use cascade_search_engine.Prelude.{
  ℕ, suc, ◌<◌, false, List, [], ◌∷◌, ◌++◌, map, ◌≡◌, refl, ap, arith, All, All-imp, append_assoc,
  if◌then◌else◌, nat_beq, concat,
}
use mathlib.Core.List.{Permᴰ}
use mathlib.Core.Path.{subst}
use mathlib.Core.List.Permᴰ
use cascade_search_engine.Prelude.Keys.{nat_eq, is_in}
use cascade_search_engine.Nrt.Segment.{Segment, SourcePath, numbered, external}
use cascade_search_engine.Nrt.Tsv.{Document}
use cascade_search_engine.Nrt.Files.{same_path, path_eq}
use cascade_search_engine.Nrt.Merge.{identities, sources}
use cascade_search_engine.Nrt.Merge.Invariant.{IsBelow, IsPlan}

-- `docs` with the documents of one more segment
abbrev pub update : (ℕ → List Document) → ℕ → List Document → ℕ → List Document
update docs n d m = if nat_beq m n then d else docs m

same_path-below : (n : ℕ) (p : SourcePath) → IsBelow n p → same_path p (numbered n) ≡ false
same_path-below n (numbered m) h = ground arith
same_path-below n (external name) h = refl

IsBelow-suc_one : (n : ℕ) (p : SourcePath) → IsBelow n p → IsBelow (suc n) p
IsBelow-suc_one n (numbered m) h = omega arith
IsBelow-suc_one n (external name) h = tt

module _ {Index : Type 0} where
  pub is_in-below :
      (n : ℕ) (xs : List (Segment Index))
      → All (λ g. IsBelow n g.source_tsv) xs
      → is_in (numbered n) (sources xs) ≡ false
  is_in-below n [] h = refl
  is_in-below n (x ∷ xs) h = rw (same_path-below n x.source_tsv h.0) (is_in-below n xs h.1)

  pub is_in-identified :
      (n : ℕ) (xs : List (Segment Index))
      → All (λ g. g.identity < n) xs
      → is_in n (identities xs) ≡ false
  is_in-identified n [] h = refl
  is_in-identified n (x ∷ xs) h = ground (arith, is_in-identified n xs h.1)

  pub IsBelow-suc :
      (n : ℕ) (xs : List (Segment Index))
      → All (λ g. IsBelow n g.source_tsv) xs
      → All (λ g. IsBelow (suc n) g.source_tsv) xs
  IsBelow-suc n = All-imp _ _ (λ g. IsBelow-suc_one n g.source_tsv)

  pub identified_suc :
      (n : ℕ) (xs : List (Segment Index))
      → All (λ g. g.identity < n) xs
      → All (λ g. g.identity < suc n) xs
  identified_suc n = All-imp _ _ (λ g h. omega arith)

  -- New segments change no one else's documents.
  pub docs_of-update :
      (docs : ℕ → List Document) (n : ℕ) (d : List Document) (xs : List (Segment Index))
      → All (λ g. g.identity < n) xs
      → concat (map (λ g. update docs n d g.identity) xs) ≡ concat (map (λ g. docs g.identity) xs)
  docs_of-update docs n d [] h = refl
  docs_of-update docs n d (x ∷ xs) h =
      let other : nat_beq x.identity n ≡ false = ground arith in
      rw other (ap (λ l. docs x.identity ++ l) (docs_of-update docs n d xs h.1))

  pub IsPlan-push :
      (segments plan : List (Segment Index)) (x : Segment Index)
      → IsPlan segments plan
      → IsPlan (segments ++ x ∷ []) plan
  IsPlan-push segments plan x (rest, p) = (
    rest ++ x ∷ [],
    subst (λ l. Permᴰ (segments ++ x ∷ []) l) (append_assoc plan rest (x ∷ []))
        (Permᴰ.append_right (x ∷ []) p),
  )

module _ {ℓ} {A : Type ℓ} where
  -- A new last element counts like a new first one.
  pub push-perm : (x : A) (hs xs : List A) → Permᴰ (x ∷ (hs ++ xs)) (hs ++ (xs ++ x ∷ []))
  push-perm x hs xs = rw (← append_assoc) (Permᴰ.append_comm (x ∷ []) (hs ++ xs))
