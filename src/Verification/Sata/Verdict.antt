-- ===== src/Verification/Sata/Verdict.antt =====
-- When the SATA check attests an erase.
use native.Mathlib.Decide.{dec_lt}
use drive_eraser.Prelude.{
  ℕ, zero, suc, ◌+◌, ◌≤◌, ◌<◌, String, ◌≡◌, ◌↔◌, ◌≢◌, refl, true, false, List, arith, str_eq, strip,
  lower, contains, Bool-cases, inl, inr, ◌⊎◌, ◌&&◌, In, any-In, In-any, str_eq_ne, ne-str_eq,
}
use drive_eraser.Device.{CommandResult, Tools}
use drive_eraser.Verification.Nvme.{extract_command_output}
use drive_eraser.Verification.Sata.{
  split_lines, mentions, state_flag, success_words, active_words, failed_words, is_transient,
  read_status, status_verdict,
}

-- Some line tells the state by one of the words.
pub record Tells (words lines : List String) : Type 0 where
  pub line : String
  pub word : String
  pub at_line : In line lines
  pub at_word : In word words
  pub is_state : contains "state:" line ≡ true
  pub says : contains word line ≡ true

pub mentions-In :
    (words : List String) (text : String)
    → mentions words text ≡ true
    → (w : String) × In w words × (contains w text ≡ true)
unfolding mentions
mentions-In words text h = any-In (λ w. contains w text) words h

pub In-mentions :
    (words : List String) (text w : String)
    → In w words
    → contains w text ≡ true
    → mentions words text ≡ true
unfolding mentions
In-mentions words text w = In-any (λ v. contains v text) words w

state_flag-Tells : (words lines : List String) → state_flag words lines ≡ true → Tells words lines
unfolding state_flag
state_flag-Tells words lines h =
    let (line, at, both) = any-In (λ l. contains "state:" l && mentions words l) lines h in
    let (state, said) = halves line both in
    let (w, at_word, says) = mentions-In words line said in
    record { line = line; word = w; at_line = at; at_word = at_word; is_state = state; says = says }
  where
    halves :
        (line : String)
        → (contains "state:" line && mentions words line) ≡ true
        → (contains "state:" line ≡ true) × (mentions words line ≡ true)
    halves line e = ground arith

Tells-state_flag : (words lines : List String) → Tells words lines → state_flag words lines ≡ true
unfolding state_flag
Tells-state_flag words lines t =
    In-any (λ l. contains "state:" l && mentions words l) lines t.line t.at_line
      (ground (arith, t.is_state, In-mentions words t.line t.word t.at_word t.says))

state_flag-not : (words lines : List String) → state_flag words lines ≡ false → ¬ Tells words lines
state_flag-not words lines h t = cc (h, Tells-state_flag words lines t)

not-state_flag : (words lines : List String) → ¬ Tells words lines → state_flag words lines ≡ false
not-state_flag words lines n = elim (Bool-cases (state_flag words lines)) [
  | inl set ↦ absurd (n (state_flag-Tells words lines set))
  | inr unset ↦ unset
]

-- The answer of a SATA drive attests the erase.
pub record StateDone (r : CommandResult) : Type 0 where
  pub said : strip (lower (extract_command_output r)) ≢ ""
  pub succeeded : Tells success_words (split_lines (lower (extract_command_output r)))
  pub not_active : ¬ Tells active_words (split_lines (lower (extract_command_output r)))
  pub not_failed : ¬ Tells failed_words (split_lines (lower (extract_command_output r)))

-- The three flags and the blank test, as `status_verdict` reads them.
abbrev Flags : CommandResult → Type 0
Flags r =
    let lowered = lower (extract_command_output r) in
    (str_eq (strip lowered) "" ≡ false)
    × (state_flag success_words (split_lines lowered) ≡ true)
    × (state_flag active_words (split_lines lowered) ≡ false)
    × (state_flag failed_words (split_lines lowered) ≡ false)

status_verdict-Flags :
    (method : String) (r : CommandResult) → (status_verdict method r).ok ≡ true → Flags r
unfolding status_verdict
status_verdict-Flags method r h = ground arith

Flags-status_verdict :
    (method : String) (r : CommandResult) → Flags r → (status_verdict method r).ok ≡ true
unfolding status_verdict
Flags-status_verdict method r h = ground arith

-- The status attests an erase exactly when it is not blank, one of its state lines has a word of
-- success, and none has a word of an active or a failed sanitize; the exit status does not count.
pub status_verdict_iff :
    (method : String) (r : CommandResult) → ((status_verdict method r).ok ≡ true) ↔ StateDone r
status_verdict_iff method r = (
  λ h.
      let (said, done, idle, fine) = status_verdict-Flags method r h in
      record {
        said = str_eq_ne _ _ said;
        succeeded = state_flag-Tells success_words _ done;
        not_active = state_flag-not active_words _ idle;
        not_failed = state_flag-not failed_words _ fine;
      },
  λ d. Flags-status_verdict method r (
    ne-str_eq _ _ d.said,
    Tells-state_flag success_words _ d.succeeded,
    not-state_flag active_words _ d.not_active,
    not-state_flag failed_words _ d.not_failed,
  ),
)

abbrev Transient : Tools → List String → ℕ → Type 0
Transient tools command k = is_transient (extract_command_output (tools.run k command)) ≡ true

-- Which attempt the loop hands on.
pub record Handed (tools : Tools) (command : List String) (left attempt : ℕ) : Type 0 where
  pub last : ℕ
  pub from : attempt ≤ last
  pub up_to : last ≤ attempt + left
  pub result : read_status tools command left attempt ≡ tools.run last command
  pub earlier : (k : ℕ) → attempt ≤ k → k < last → Transient tools command k
  pub settled :
      (last ≡ attempt + left)
      ⊎ (is_transient (extract_command_output (tools.run last command)) ≡ false)

-- The loop over the attempts hands on the answer of one of the attempts that it has, after as many
-- transient ones as came before: that answer is not transient, or it is the last attempt.
pub read_status-Handed :
    (tools : Tools) (command : List String) (left attempt : ℕ) → Handed tools command left attempt
unfolding read_status
read_status-Handed tools command zero attempt = record {
  last = attempt;
  from = omega arith;
  up_to = omega arith;
  result = refl;
  earlier = λ k lo hi. absurd (omega arith);
  settled = inl (omega arith);
}
read_status-Handed tools command (suc left) attempt =
    elim (Bool-cases (is_transient (extract_command_output (tools.run attempt command)))) [
      | inl again ↦
          let next = read_status-Handed tools command left (attempt + 1) in
          record {
            last = next.last;
            from = omega (arith, next.from);
            up_to = omega (arith, next.up_to);
            result = rw (again, read_status) next.result;
            earlier = λ k lo hi. elim (dec_lt attempt k) [
              | yes later ↦ next.earlier k (omega arith) hi
              | no same ↦ let e : attempt ≡ k = omega arith in rw (← e) again
            ];
            settled = elim next.settled [ inl e ↦ inl (omega arith) | inr fine ↦ inr fine ];
          }
      | inr fine ↦ record {
        last = attempt;
        from = omega arith;
        up_to = omega arith;
        result = rw (fine, read_status);
        earlier = λ k lo hi. absurd (omega arith);
        settled = inr fine;
      }
    ]
