-- ===== src/EraseJob/Rules.antt =====
-- How a property of the end of an erase job follows from its stages.
use mathlib.Core.Path.{subst}
use drive_eraser.Prelude.{◌≡◌, refl, Option, none, some, arith, Bool-cases, inl, inr}
use drive_eraser.EraseJob.State.{Job, Run, Section, Station, look_up, change, update}
use drive_eraser.EraseJob.Stages.{Passed}
use drive_eraser.EraseJob.Finish.{continue}

-- Where the job ends with a stage, `P` holds; where it goes on, `Q` does of what is handed on.
pub record Holds {ℓ} {A : Type ℓ} (P : Run → Type 0) (Q : A → Run → Type 0) (p : Passed A)
    : Type ℓ where
  pub at_end : p.value ≡ none → P p.run
  pub handed : (a : A) → p.value ≡ some a → Q a p.run

pub continue-Holds {ℓ} :
    {A : Type ℓ} {P : Run → Type 0} {Q : A → Run → Type 0} (p : Passed A) (next : A → Run → Run)
    → Holds P Q p
    → ((a : A) (r : Run) → Q a r → P (next a r))
    → P (continue p next)
unfolding continue
continue-Holds {A = A} {P = P} p next h rest = go p.value refl
  where
    go : (o : Option A) → p.value ≡ o → P (elim o [ none ↦ p.run | some a ↦ next a p.run ])
    go none e = h.at_end e
    go (some a) e = rest a p.run (h.handed a e)

module _ {ℓ} {A : Type ℓ} {P : Run → Type 0} {Q : A → Run → Type 0} where
  pub ends-Holds : (r : Run) → P r → Holds P Q (record { run = r; value = none })
  ends-Holds r h = record { at_end = λ e. h; handed = λ a e. cc e }

  pub goes_on-Holds : (a : A) (r : Run) → Q a r → Holds P Q (record { run = r; value = some a })
  goes_on-Holds a r h = record {
    at_end = λ e. cc e;
    handed = λ b e. let same : a ≡ b = ground (arith, e) in subst (λ x. Q x r) same h;
  }

-- A predicate of the job, if it is still there.
abbrev pub OfJob : (Job → Type 0) → Option Job → Type 0
OfJob P none = Unit
OfJob P (some job) = P job

module _ (P Q : Job → Type 0) (station : Station) (section : Section) (r : Run) where
  pub look_up-OfJob : OfJob P r.job → OfJob P (look_up station section r).job
  unfolding look_up
  look_up-OfJob h = elim (Bool-cases (station.deleted section)) [
    | inl gone ↦ rw gone tt
    | inr there ↦ rw there h
  ]

  change-OfJob :
      (f : Job → Job)
      → ((j : Job) → P j → Q (f j))
      → (o : Option Job) → OfJob P o
      → OfJob Q (change f o)
  unfolding change
  change-OfJob f h none p = tt
  change-OfJob f h (some j) p = h j p

  pub update-OfJob :
      (f : Job → Job)
      → ((j : Job) → P j → Q (f j))
      → OfJob P r.job
      → OfJob Q (update station section f r).job
  unfolding update
  update-OfJob f h p = change-OfJob f h (look_up station section r).job (look_up-OfJob p)

  pub spawned-look_up : (look_up station section r).spawned ≡ r.spawned
  unfolding look_up
  spawned-look_up = ground arith

  pub spawned-update : (f : Job → Job) → (update station section f r).spawned ≡ r.spawned
  unfolding update
  spawned-update f = spawned-look_up

  pub waiting-look_up : (look_up station section r).waiting ≡ r.waiting
  unfolding look_up
  waiting-look_up = ground arith

  pub waiting-update : (f : Job → Job) → (update station section f r).waiting ≡ r.waiting
  unfolding update
  waiting-update f = waiting-look_up
