-- ===== src/Shell/Command/Pipes.antt =====
-- `Command::parse` of parch_utils/shell/src/main.rs at commands with `|`.
use parch_testbench.Prelude.{
  ℕ, suc, ◌+◌, ◌≡◌, ◌≢◌, ◌∙◌, refl, sym, false, [], ◌∷◌, ◌++◌, Text, Lacks, length, length-append,
  take-append, drop-append, arith, inl, inr,
}
use parch_testbench.Strings.{find, is_whitespace, trim, trim_start, trim_end, split, non_empty}
use parch_testbench.Strings.Positions.{find-append, find-Lacks, find-cases}
use parch_testbench.Strings.Trim.{All-trim, trim_visible}
use parch_testbench.Shell.Command.{
  Command, Parse, ok, parse_err, panicked, starved, ◌>>=◌, split_at, connect, parse_simple,
  redirections, parse_found, parse_fuel, parse,
}

abbrev bar : ℕ
bar = b'|'

pub split_at-append : (e t : Text) → split_at (e ++ t) (length e) ≡ ok (e, t)
unfolding split_at
split_at-append e t = ground (arith, length-append e t, take-append e t, drop-append e t)

-- One round at a command whose first `|` stands behind `e`.
pub parse_fuel_at_bar :
    (fuel : ℕ) (e t : Text)
    → Lacks bar e
    → parse_fuel (suc fuel) (e ++ bar ∷ t)
      ≡ (parse_fuel fuel (trim e) >>= λ l. parse_fuel fuel (trim (bar ∷ t)) >>= connect l)
unfolding parse_fuel
parse_fuel_at_bar fuel e t h =
    rw (find-append bar e t h) (unfold parse_found in rw (split_at-append e (bar ∷ t)))

pub parse_fuel-Lacks :
    (fuel : ℕ) (s : Text) → Lacks bar s → parse_fuel (suc fuel) s ≡ parse_simple s
unfolding parse_fuel parse_found
parse_fuel-Lacks fuel s h = rw (find-Lacks bar s h, parse_found)

parse_simple-nil : parse_simple [] ≡ parse_err
unfolding parse_simple redirections find trim trim_start trim_end split non_empty
parse_simple-nil = refl

bar_visible : is_whitespace bar ≡ false
unfolding is_whitespace
bar_visible = refl

trim-nil : trim [] ≡ []
unfolding trim trim_start trim_end
trim-nil = refl

parse_empty : (fuel : ℕ) → parse_fuel (suc fuel) (trim []) ≡ parse_err
parse_empty fuel = rw trim-nil (parse_fuel-Lacks fuel [] tt ∙ parse_simple-nil)

-- The right side still starts with its `|`, whose left side is empty: it is an error.
right_side : (fuel : ℕ) (t : Text) → parse_fuel (suc (suc fuel)) (trim (bar ∷ t)) ≡ parse_err
right_side fuel t =
    rw
      (
        trim_visible bar t bar_visible,
        parse_fuel_at_bar (suc fuel) [] (trim_end t) tt,
        parse_empty fuel,
      )
      refl

with_enough_fuel :
    (k : ℕ) (e t : Text)
    → Lacks bar e
    → parse_fuel (suc (suc (suc k))) (e ++ bar ∷ t) ≡ (parse_simple (trim e) >>= λ _. parse_err)
with_enough_fuel k e t h =
    rw
      (
        parse_fuel_at_bar (suc (suc k)) e t h,
        parse_fuel-Lacks (suc k) (trim e) (All-trim _ e h),
        right_side k t,
      )
      refl

-- A command with a `|` is an error or a panic: what stands left of its first `|` is parsed alone,
-- and where that succeeds the result is `ParseErr`.
pub parse_pipe :
    (e t : Text) → Lacks bar e → parse (e ++ bar ∷ t) ≡ (parse_simple (trim e) >>= λ _. parse_err)
unfolding parse
parse_pipe [] t h =
    rw
      (
        parse_fuel_at_bar (suc (length t)) [] t tt,
        parse_empty (length t),
        trim-nil,
        parse_simple-nil,
      )
      refl
parse_pipe (x ∷ e) t h =
    let enough : length (e ++ bar ∷ t) ≡ suc (length e + length t) =
      omega (arith, length-append e (bar ∷ t)) in
    rw enough (with_enough_fuel (length e + length t) (x ∷ e) t h)

pub parse-Lacks : (s : Text) → Lacks bar s → parse s ≡ parse_simple s
unfolding parse
parse-Lacks s h = parse_fuel-Lacks (length s) s h

-- A bind whose rest always fails does not return.
dropped : (m : Parse Command) (c : Command) → (m >>= λ _. parse_err) ≢ ok c
dropped (ok a) c e = cc
dropped parse_err c e = cc
dropped panicked c e = cc
dropped starved c e = cc

-- No command that holds a `|` is accepted, wherever the `|` stands: an accepted one was parsed as a
-- single program.
pub parse_accepts :
    (s : Text) (c : Command) → parse s ≡ ok c → Lacks bar s × (parse_simple s ≡ ok c)
parse_accepts s c h = elim (find-cases bar s) [
  | inl none_found ↦ (none_found, sym (parse-Lacks s none_found) ∙ h)
  | inr (e, t, split_here, first) ↦
      absurd (dropped (parse_simple (trim e)) c (sym (parse_pipe e t first) ∙ rw split_here at h))
]
