-- ===== src/Server/Shards/Resume.antt =====
-- What a run leaves, and what the next run makes of it.
use cascade_search_engine.Prelude.{
  Bool, true, false, List, [], ◌∷◌, map, ◌≡◌, refl, sym, ap, ◌∙◌, ◌⊎◌, inl, inr, if_intro,
  if◌then◌else◌,
}
use cascade_search_engine.Server.Shards.{
  IndexDir, truncated, complete, Outcome, succeeds, fails_before_terms, fails_in_terms,
  fails_after_terms, Shard, is_built, ends_well, dirs_of, run_binary, build_shards,
}

-- what the directory of a shard is when all runs succeed: a built one stays
abbrev pub built_dir : Shard → IndexDir
built_dir shard = if is_built shard.index_dir then shard.index_dir else complete shard.tsv

-- a shard whose directory is now this, and whose next build succeeds
abbrev pub again : Shard → IndexDir → Shard
again shard dir = record { tsv = shard.tsv; index_dir = dir; outcome = succeeds }

-- the shards as they stand after a run that left these directories
abbrev pub after_run : List Shard → List IndexDir → List Shard
after_run (shard ∷ shards) (dir ∷ dirs) = again shard dir ∷ after_run shards dirs
after_run _ _ = []

-- The directory is as if no run had failed, or its build was cut while it wrote `index.terms`.
abbrev pub IsRight : Shard → IndexDir → Type 0
IsRight shard dir =
    (dir ≡ built_dir shard)
    ⊎ ((is_built shard.index_dir ≡ false) × (shard.outcome ≡ fails_in_terms) × (dir ≡ truncated))

abbrev pub AreRight : List Shard → List IndexDir → Type 0
AreRight [] [] = Unit
AreRight (shard ∷ shards) (dir ∷ dirs) = IsRight shard dir × AreRight shards dirs
AreRight _ _ = ⊥

-- where no run of the binary was made
untouched :
    (shards : List Shard) → AreRight shards (map built_dir (after_run shards (dirs_of shards)))
untouched [] = tt
untouched (shard ∷ shards) = (inl refl, untouched shards)

ran_at :
    (shard : Shard) (outcome : Outcome)
    → is_built shard.index_dir ≡ false
    → let this = record shard { outcome = outcome } in
      IsRight this (built_dir (again this (run_binary this)))
unfolding run_binary
ran_at shard succeeds missing =
    inl (ap (λ b. if b then shard.index_dir else complete shard.tsv) (sym missing))
ran_at shard fails_before_terms missing =
    inl (ap (λ b. if b then shard.index_dir else complete shard.tsv) (sym missing))
ran_at shard fails_in_terms missing = inr (missing, refl, refl)
ran_at shard fails_after_terms missing =
    inl (ap (λ b. if b then shard.index_dir else complete shard.tsv) (sym missing))

build_shards-AreRight :
    (shards : List Shard)
    → AreRight shards (map built_dir (after_run shards (build_shards shards).1))
unfolding build_shards
build_shards-AreRight [] = tt
build_shards-AreRight (shard ∷ shards) =
    let Fits : Bool × List IndexDir → Type 0 =
      λ r. AreRight (shard ∷ shards) (map built_dir (after_run (shard ∷ shards) r.1)) in
    if_intro Fits (is_built shard.index_dir) (λ there. (inl refl, build_shards-AreRight shards))
      (λ missing.
        let ran = ran_at shard shard.outcome missing in
        if_intro Fits (ends_well shard.outcome) (λ ok. (ran, build_shards-AreRight shards))
          (λ bad. (ran, untouched shards)))

build_again :
    (shards : List Shard) (dirs : List IndexDir)
    → build_shards (after_run shards dirs) ≡ (true, map built_dir (after_run shards dirs))
unfolding build_shards run_binary
build_again [] [] = refl
build_again [] (dir ∷ dirs) = refl
build_again (shard ∷ shards) [] = refl
build_again (shard ∷ shards) (dir ∷ dirs) =
    let rest = build_again shards dirs in
    let result : Bool × List IndexDir → Bool × List IndexDir =
      λ r. if is_built dir then (r.0, dir ∷ r.1) else (r.0, complete shard.tsv ∷ r.1) in
    ap result rest
    ∙ if_intro
        (λ (r : Bool × List IndexDir).
          r ≡ (true, map built_dir (after_run (shard ∷ shards) (dir ∷ dirs))))
        (is_built dir)
        (λ there.
          ap
            (λ b. (
              true,
              (if b then dir else complete shard.tsv) ∷ map built_dir (after_run shards dirs),
            ))
            (sym there))
        (λ missing.
          ap
            (λ b. (
              true,
              (if b then dir else complete shard.tsv) ∷ map built_dir (after_run shards dirs),
            ))
            (sym missing))

-- A run, whatever of it failed, and then a run in which no build fails: the second returns, and every shard
-- has its directory as it was before the first run, if `index.terms` was there, and otherwise the index
-- built from its TSV, unless the first run's build of that shard failed in the writing of `index.terms`:
-- what that left stays.
pub build_shards-resume :
    (shards : List Shard)
    → (dirs : List IndexDir) × (build_shards (after_run shards (build_shards shards).1)
        ≡ (true, dirs))
      × AreRight shards dirs
build_shards-resume shards =
    let left = (build_shards shards).1 in
    (map built_dir (after_run shards left), build_again shards left, build_shards-AreRight shards)
