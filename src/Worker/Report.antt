-- ===== src/Worker/Report.antt =====
-- What the report of a job says: mapDHIS2Job of main.go.
use sukumad.Prelude.{
  Bool-cases, ◌≡◌, refl, sym, ap, ◌∙◌, ◌↔◌, ◌⊎◌, inl, inr, Bool, true, false, ◌||◌, Option, none,
  some, [], arith,
}
use sukumad.Text.{Bytes, str, text_eq, to_upper}
use sukumad.Text.Laws.{text_eq_iff}
use sukumad.Types.{Json, null, text, obj, get_member}
use sukumad.Worker.Helpers.{running_job, job_of_status, job_of_member, job_of_json}
use mathlib.Core.Option.{some-injective}
use mathlib.Core.Path.{subst}

-- The upper-cased status of a job's report, if the report is an object that has one.
abbrev pub word_of_member : Option Json → Option Bytes
word_of_member (some (text s)) = some (to_upper s)
word_of_member _ = none

abbrev pub status_word : Option Json → Option Bytes
status_word (some (obj ms)) = word_of_member (get_member (str "status") ms)
status_word _ = none

abbrev pub SaysFinished : Bytes → Type 0
SaysFinished u = (u ≡ str "COMPLETED") ⊎ (u ≡ str "SUCCESS") ⊎ (u ≡ str "OK")

abbrev pub SaysFailed : Bytes → Type 0
SaysFailed u = (u ≡ str "FAILED") ⊎ (u ≡ str "ERROR")

-- The cases of the switch.
pub data JobCase (u : Bytes) : Bytes × Bytes × Bytes → Type 0 where
  finished : SaysFinished u → JobCase u ([], str "COMPLETED", [])
  broken : ¬ SaysFinished u → SaysFailed u → JobCase u ([], [], str "FAILED")
  running : ¬ SaysFinished u → ¬ SaysFailed u → JobCase u (str "RUNNING", [], [])
  queued : ¬ SaysFinished u → ¬ SaysFailed u → JobCase u (str "QUEUED", [], [])

abbrev pub finished_test : Bytes → Bool
finished_test u = text_eq u (str "COMPLETED") || text_eq u (str "SUCCESS") || text_eq u (str "OK")

pub finished_test_iff : (u : Bytes) → (finished_test u ≡ true) ↔ SaysFinished u
finished_test_iff u = ground (
  arith,
  text_eq_iff u (str "COMPLETED"),
  text_eq_iff u (str "SUCCESS"),
  text_eq_iff u (str "OK"),
)

abbrev pub failed_test : Bytes → Bool
failed_test u = text_eq u (str "FAILED") || text_eq u (str "ERROR")

pub failed_test_iff : (u : Bytes) → (failed_test u ≡ true) ↔ SaysFailed u
failed_test_iff u = ground (arith, text_eq_iff u (str "FAILED"), text_eq_iff u (str "ERROR"))

-- A test that fails refutes what it decides.
pub refuted : {P : Type 0} (b : Bool) → (b ≡ true) ↔ P → b ≡ false → ¬ P
refuted b h e p = absurd (cc (h.1 p))

pub job_of_status-JobCase : (u : Bytes) → JobCase u (job_of_status u)
unfolding job_of_status
job_of_status-JobCase u = elim (Bool-cases (finished_test u)) [
  | inl e ↦ rw e (finished ((finished_test_iff u).0 e))
  | inr e ↦
      let no_success = refuted (finished_test u) (finished_test_iff u) e in
      elim (Bool-cases (failed_test u)) [
        | inl e₂ ↦ rw (e, e₂) (broken no_success ((failed_test_iff u).0 e₂))
        | inr e₂ ↦
            let no_failure = refuted (failed_test u) (failed_test_iff u) e₂ in
            elim (Bool-cases (text_eq u (str "RUNNING"))) [
              | inl e₃ ↦
                  rw (e, e₂, e₃)
                    (subst (λ v. JobCase u (v, [], [])) (sym ((text_eq_iff u (str "RUNNING")).0 e₃))
                      (running no_success no_failure))
              | inr e₃ ↦ elim (Bool-cases (text_eq u (str "QUEUED"))) [
                | inl e₄ ↦
                    rw (e, e₂, e₃, e₄)
                      (subst (λ v. JobCase u (v, [], []))
                        (sym ((text_eq_iff u (str "QUEUED")).0 e₄)) (queued no_success no_failure))
                | inr e₄ ↦ rw (e, e₂, e₃, e₄) (running no_success no_failure)
              ]
            ]
      ]
]

-- A report whose word is known holds of a predicate exactly if the word does.
pub word_iff :
    (P : Bytes → Type 0) (o : Option Bytes) (u : Bytes)
    → o ≡ some u
    → ((v : Bytes) × (o ≡ some v) × P v) ↔ P u
word_iff P o u e = (λ (v, e', p). subst P (some-injective _ _ (sym e' ∙ e)) p, λ p. (u, e, p))

pub no_word_iff :
    (P : Bytes → Type 0) (o : Option Bytes) → o ≡ none → ((v : Bytes) × (o ≡ some v) × P v) ↔ ⊥
no_word_iff P o e = (λ (v, e', p). absurd (cc), λ h. absurd h)

pub job_of_member-none : (m : Option Json) → word_of_member m ≡ none → job_of_member m ≡ running_job
job_of_member-none (some (text s)) e = absurd (cc)
job_of_member-none (some null) e = refl
job_of_member-none (some _) e = refl
job_of_member-none none e = refl

pub job_of_member-some :
    (m : Option Json) (u : Bytes) → word_of_member m ≡ some u → job_of_member m ≡ job_of_status u
job_of_member-some (some (text s)) u e = ap job_of_status (some-injective _ _ e)
job_of_member-some (some null) u e = absurd (cc)
job_of_member-some (some _) u e = absurd (cc)
job_of_member-some none u e = absurd (cc)

pub job_of_json-none : (j : Option Json) → status_word j ≡ none → job_of_json j ≡ running_job
job_of_json-none (some (obj ms)) e = job_of_member-none (get_member (str "status") ms) e
job_of_json-none (some null) e = refl
job_of_json-none (some _) e = refl
job_of_json-none none e = refl

pub job_of_json-some :
    (j : Option Json) (u : Bytes) → status_word j ≡ some u → job_of_json j ≡ job_of_status u
job_of_json-some (some (obj ms)) u e = job_of_member-some (get_member (str "status") ms) u e
job_of_json-some (some null) u e = absurd (cc)
job_of_json-some (some _) u e = absurd (cc)
job_of_json-some none u e = absurd (cc)
