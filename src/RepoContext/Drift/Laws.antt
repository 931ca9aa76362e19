-- ===== src/RepoContext/Drift/Laws.antt =====
-- The check of the drift, of scripts/repo_context_tools.py, alone and behind a generation.
use mathlib.Core.Path.{subst}
use df_local_foundation.Prelude.{
  ◌≡◌, ◌↔◌, ◌⊎◌, refl, ap, sym, ◌∙◌, true, false, Option, none, some, List, [], ◌∷◌, contains,
  eqb_codes, eqb_codes_iff, All, arith, Bool-cases, inl, inr,
}
use df_local_foundation.Runtime.{Outcome, ok, raised}
use df_local_foundation.Runtime.Pure.{◌>>=◌, bound}
use df_local_foundation.Storage.{os_error}
use df_local_foundation.RepoContext.Yaml.{Text, Store}
use df_local_foundation.RepoContext.Manifest.{Item, Manifest, parse_manifest}
use df_local_foundation.RepoContext.Instructions.{
  generated_agent_files, is_listed, manifest_hash, render_agent_instruction, render_listed,
  instructions_of,
}
use df_local_foundation.RepoContext.Drift.{
  Tree, newlines, written, manifest_name, Files, write_all, drift_of, exit_code, Reason, missing,
  stale, expected_instructions, generate, drift, check_drift,
}

-- The file is there, and reads as expected.
abbrev pub IsCurrent : Tree → Text × Text → Type 0
IsCurrent t f = (s : Text) × (t f.0 ≡ some s) × (newlines s ≡ f.1)

drift_of-empty : (fs : Files) (t : Tree) → (drift_of fs t ≡ []) ↔ All (IsCurrent t) fs
unfolding drift_of
drift_of-empty [] t = (λ h. tt, λ h. refl)
drift_of-empty ((name, expected) ∷ fs) t = by_file (t name) refl (drift_of-empty fs t)
  where
    by_file :
        (o : Option Text)
        → t name ≡ o
        → ((drift_of fs t ≡ []) ↔ All (IsCurrent t) fs)
        → (drift_of ((name, expected) ∷ fs) t ≡ []) ↔ All (IsCurrent t) ((name, expected) ∷ fs)
    by_file none e ih = (
      λ h. let gone : (name, missing) ∷ drift_of fs t ≡ [] = rw e at h in cc gone,
      λ ((s, f, g), rest). cc (e, f),
    )
    by_file (some s) e ih = elim (Bool-cases (eqb_codes (newlines s) expected)) [
      | inl same ↦ (
        λ h.
            let rest : drift_of fs t ≡ [] = rw (e, same) at h in
            ((s, e, (eqb_codes_iff (newlines s) expected).0 same), ih.0 rest),
        λ (here, rest). rw (e, same) (ih.1 rest),
      )
      | inr other ↦ (
        λ h. let differs : (name, stale) ∷ drift_of fs t ≡ [] = rw (e, other) at h in cc differs,
        λ ((u, f, g), rest).
            let same : u ≡ s = cc (e, f) in
            let reads : newlines s ≡ expected = subst (λ v. newlines v ≡ expected) same g in
            let clash : true ≡ false =
              sym ((eqb_codes_iff (newlines s) expected).1 reads) ∙ other in
            cc clash,
      )
    ]

abbrev AreDistinctNames : List Text → Type 0
AreDistinctNames [] = Unit
AreDistinctNames (n ∷ ns) = All (λ (m : Text). eqb_codes n m ≡ false) ns × AreDistinctNames ns

-- The names of files are not one another's.
abbrev AreDistinct : Files → Type 0
AreDistinct [] = Unit
AreDistinct (f ∷ fs) = All (λ (g : Text × Text). eqb_codes f.0 g.0 ≡ false) fs × AreDistinct fs

written_kept :
    (name : Text) (fs : Files) (t : Tree)
    → All (λ (g : Text × Text). eqb_codes name g.0 ≡ false) fs
    → write_all fs t name ≡ t name
unfolding write_all
written_kept name [] t h = refl
written_kept name ((n, c) ∷ fs) t (h, hs) = written_kept name fs (written n c t) hs ∙ rw h

newlines_lem : (s : Text) → contains 13 s ≡ false → newlines s ≡ s
unfolding newlines
newlines_lem [] h = refl
newlines_lem (c ∷ s) h = ground (arith, newlines_lem s)

-- A text without carriage returns reads as it was written.
abbrev pub HasNoCr : Text × Text → Type 0
HasNoCr f = contains 13 f.1 ≡ false

write_all-IsCurrent :
    (fs : Files) (t : Tree) → AreDistinct fs → All HasNoCr fs → All (IsCurrent (write_all fs t)) fs
unfolding write_all
write_all-IsCurrent [] t h k = tt
write_all-IsCurrent ((name, contents) ∷ fs) t (h, hs) (k, ks) = (
  (
    contents,
    written_kept name fs (written name contents t) h ∙ rw (same_name name) refl,
    newlines_lem contents k,
  ),
  write_all-IsCurrent fs (written name contents t) hs ks,
)
  where
    same_name : (n : Text) → eqb_codes n n ≡ true
    same_name n = (eqb_codes_iff n n).1 refl

exit_code_lem : (rs : List (Text × Reason)) → exit_code rs ≡ 0 → rs ≡ []
exit_code_lem [] h = refl
exit_code_lem (r ∷ rs) h = cc

module _ (repr : Store → Item → Text) (digest : Text → Text) where
  -- The files are those of the names behind the first, with or without one of the first.
  render_listed-cons :
      (n : Text) (ns : List Text) (m : Manifest) (store : Store) (hash : Text) (fs : Files)
      → render_listed repr digest (n ∷ ns) m store hash ≡ ok fs
      → ((c : Text) × (others : Files) × (fs ≡ (n, c) ∷ others)
          × (render_listed repr digest ns m store hash ≡ ok others))
        ⊎ (render_listed repr digest ns m store hash ≡ ok fs)
  unfolding render_listed
  render_listed-cons n ns m store hash fs e =
      elim (Bool-cases (is_listed repr digest n m.generated_files)) [
        | inl listed ↦
            let (c, a, e1) =
              bound (render_agent_instruction repr digest n m store hash)
                (λ c. render_listed repr digest ns m store hash >>= λ others. ok ((n, c) ∷ others))
                fs (rw listed at e) in
            let (others, b, e2) =
              bound (render_listed repr digest ns m store hash) (λ others. ok ((n, c) ∷ others)) fs
                e1 in
            inl (c, others, cc e2, b)
        | inr unlisted ↦ inr (rw unlisted at e)
      ]

  -- What holds of all names that may be generated holds of those that are.
  render_listed-All :
      (P : Text → Type 0) (names : List Text) (m : Manifest) (store : Store) (hash : Text)
      (fs : Files)
      → All P names
      → render_listed repr digest names m store hash ≡ ok fs
      → All (λ (f : Text × Text). P f.0) fs
  unfolding render_listed
  render_listed-All P [] m store hash fs h e =
      let same : [] ≡ fs = cc e in subst (All (λ (f : Text × Text). P f.0)) same tt
  render_listed-All P (n ∷ ns) m store hash fs (h, hs) e =
      elim (render_listed-cons n ns m store hash fs e) [
        | inl (c, others, same, rest) ↦
            subst (All (λ (f : Text × Text). P f.0)) (sym same)
              (h, render_listed-All P ns m store hash others hs rest)
        | inr rest ↦ render_listed-All P ns m store hash fs hs rest
      ]

  render_listed-AreDistinct :
      (names : List Text) (m : Manifest) (store : Store) (hash : Text) (fs : Files)
      → AreDistinctNames names
      → render_listed repr digest names m store hash ≡ ok fs
      → AreDistinct fs
  unfolding render_listed
  render_listed-AreDistinct [] m store hash fs h e =
      let same : [] ≡ fs = cc e in subst AreDistinct same tt
  render_listed-AreDistinct (n ∷ ns) m store hash fs (h, hs) e =
      elim (render_listed-cons n ns m store hash fs e) [
        | inl (c, others, same, rest) ↦ subst AreDistinct (sym same) (
          render_listed-All (λ k. eqb_codes n k ≡ false) ns m store hash others h rest,
          render_listed-AreDistinct ns m store hash others hs rest,
        )
        | inr rest ↦ render_listed-AreDistinct ns m store hash fs hs rest
      ]

  -- What is expected depends on the manifest alone.
  expected_lem :
      (t u : Tree) (fs : Files)
      → u manifest_name ≡ t manifest_name
      → expected_instructions repr digest t ≡ (ok fs, t)
      → expected_instructions repr digest u ≡ (ok fs, u)
  unfolding expected_instructions
  expected_lem t u fs same e = by_file (t manifest_name) refl
    where
      by_file :
          (o : Option Text) → t manifest_name ≡ o → expected_instructions repr digest u ≡ (ok fs, u)
      by_file none f =
          let e' = ap (λ (q : Outcome Files × Tree). q.0) e in
          let gone : raised os_error ≡ ok fs = rw f at e' in cc gone
      by_file (some s) f =
          let e' = ap (λ (q : Outcome Files × Tree). q.0) e in
          let a : instructions_of repr digest (newlines s) ≡ ok fs = rw f at e' in rw (same, f, a)

  expected_rendered :
      (t : Tree) (fs : Files)
      → expected_instructions repr digest t ≡ (ok fs, t)
      → (m : Manifest) × (store : Store) × (hash : Text) × (render_listed repr digest
            generated_agent_files m store hash
          ≡ ok fs)
  unfolding expected_instructions instructions_of
  expected_rendered t fs e = by_file (t manifest_name) refl
    where
      by_file :
          (o : Option Text)
          → t manifest_name ≡ o
          → (m : Manifest) × (store : Store) × (hash : Text) × (render_listed repr digest
                generated_agent_files m store hash
              ≡ ok fs)
      by_file none f =
          let e' = ap (λ (q : Outcome Files × Tree). q.0) e in
          let gone : raised os_error ≡ ok fs = rw f at e' in cc gone
      by_file (some s) f =
          let e' = ap (λ (q : Outcome Files × Tree). q.0) e in
          let a : instructions_of repr digest (newlines s) ≡ ok fs = rw f at e' in
          let ((m, store), parsed, rest) = bound (parse_manifest (newlines s)) _ fs a in
          (m, store, manifest_hash repr digest (newlines s), rest)

  -- The check of the drift passes exactly if every file that is expected is there and reads, with its
  -- line ends as Python's, as it is expected.
  pub check_drift_iff :
      (t : Tree) (fs : Files)
      → expected_instructions repr digest t ≡ (ok fs, t)
      → ((check_drift repr digest t).0 ≡ ok 0) ↔ All (IsCurrent t) fs
  unfolding check_drift drift
  check_drift_iff t fs e =
      let empty = drift_of-empty fs t in
      (
        λ h.
            let code : ok (exit_code (drift_of fs t)) ≡ ok 0 = rw e at h in
            empty.0 (exit_code_lem (drift_of fs t) (cc code)),
        λ h. rw e (rw (empty.1 h) refl),
      )

  -- Behind a generation the check of the drift passes, if the instructions hold no carriage return: the
  -- generated files are those that the check expects.
  pub drift_after_generate :
      (t : Tree) (fs : Files)
      → expected_instructions repr digest t ≡ (ok fs, t)
      → All HasNoCr fs
      → (check_drift repr digest (generate repr digest t).1).0 ≡ ok 0
  unfolding check_drift drift generate
  drift_after_generate t fs e k =
      let (m, store, hash, rendered) = expected_rendered t fs e in
      let kept : write_all fs t manifest_name ≡ t manifest_name = written_kept manifest_name fs t (
        render_listed-All (λ k. eqb_codes manifest_name k ≡ false) generated_agent_files m store
          hash fs (refl, (refl, (refl, (refl, tt)))) rendered) in
      let distinct : AreDistinct fs =
        render_listed-AreDistinct generated_agent_files m store hash fs
          ((refl, (refl, (refl, tt))), ((refl, (refl, tt)), ((refl, tt), (tt, tt)))) rendered in
      rw e (
        (check_drift_iff (write_all fs t) fs (expected_lem t (write_all fs t) fs kept e)).1
          (write_all-IsCurrent fs t distinct k))
