-- ===== src/Shell/Command/Words.antt =====
-- `Command::parse` of parch_utils/shell/src/main.rs at the lines that name a program, its
-- arguments and at most one redirection.
use parch_testbench.Prelude.{
  All-map, ℕ, ◌≡◌, ◌≢◌, ◌∙◌, refl, false, List, [], ◌∷◌, ◌++◌, Text, Lacks, All, All-append,
  append-nil, arith,
}
use parch_testbench.Strings.{is_whitespace, trim_start, trim_end, trim, split, non_empty}
use parch_testbench.Strings.Positions.{find-append, find-Lacks}
use parch_testbench.Strings.Split.{join, split-join, non_empty_id}
use parch_testbench.Strings.Trim.{trim_space, trim_end_space, trim_end_visible, trim_end-append}
use parch_testbench.Shell.Command.{
  command, IoType, default, file, ok, redirections, parse_simple, parse,
}
use parch_testbench.Shell.Command.Pipes.{parse-Lacks}
use parch_testbench.Shell.Command.Redirects.{cut_at-append}

-- A character that the shell keeps inside a word.
pub record IsPlain (c : ℕ) : Type 0 where
  pub visible : is_whitespace c ≡ false
  pub not_bar : c ≢ b'|'
  pub not_in : c ≢ b'<'
  pub not_out : c ≢ b'>'

pub record IsWord (w : Text) : Type 0 where
  pub not_empty : w ≢ []
  pub plain : All IsPlain w

pub data Redirect : Type 0 where
  none_given : Redirect
  from_file to_file : Text → Redirect

abbrev space : ℕ
space = b' '

-- The line that a user types for a command.
unfoldable pub render : List Text → Redirect → Text
unfolding join
render ws none_given = join space ws
render ws (from_file p) = (join space ws ++ space ∷ []) ++ b'<' ∷ space ∷ p
render ws (to_file p) = (join space ws ++ space ∷ []) ++ b'>' ∷ space ∷ p

abbrev pub input_of : Redirect → IoType
input_of (from_file p) = file p
input_of _ = default

abbrev pub output_of : Redirect → IoType
output_of (to_file p) = file p
output_of _ = default

abbrev pub IsRedirect : Redirect → Type 0
IsRedirect none_given = Unit
IsRedirect (from_file p) = IsWord p
IsRedirect (to_file p) = IsWord p

space_white : is_whitespace space ≢ false
unfolding is_whitespace
space_white e = cc

not_space : (c : ℕ) → IsPlain c → c ≢ space
not_space c h e = space_white (rw e at h.visible)

Lacks-space : (ws : List Text) → All IsWord ws → All (Lacks space) ws
Lacks-space [] h = tt
Lacks-space (w ∷ ws) h = (All-map not_space w h.0.plain, Lacks-space ws h.1)

filled : (ws : List Text) → All IsWord ws → All (λ w. w ≢ []) ws
filled [] h = tt
filled (w ∷ ws) h = (h.0.not_empty, filled ws h.1)

All-join :
    {P : ℕ → Type 0} (f : (c : ℕ) → IsPlain c → P c) (hs : P space) (ws : List Text)
    → All IsWord ws
    → All P (join space ws)
unfolding join
All-join f hs [] h = tt
All-join f hs (w ∷ []) h = All-map f w h.0.plain
All-join {P} f hs (w ∷ v ∷ vs) h =
    All-append P w _ (All-map f w h.0.plain) (hs, All-join f hs (v ∷ vs) h.1)

join-ne_nil : (w : Text) (ws : List Text) → w ≢ [] → join space (w ∷ ws) ≢ []
unfolding join
join-ne_nil [] ws n = absurd (n refl)
join-ne_nil (x ∷ w) [] n = λ e. cc
join-ne_nil (x ∷ w) (v ∷ vs) n = λ e. cc

trim_end_word : (w : Text) → All IsPlain w → trim_end w ≡ w
trim_end_word w h = trim_end_visible w (All-map (λ c p. p.visible) w h)

trim_end-join :
    (w : Text) (ws : List Text)
    → All IsWord (w ∷ ws)
    → trim_end (join space (w ∷ ws)) ≡ join space (w ∷ ws)
unfolding join
trim_end-join w [] h = trim_end_word w h.0.plain
trim_end-join w (v ∷ vs) h =
    trim_end-append w (space ∷ join space (v ∷ vs))
      (trim_end-append (space ∷ []) (join space (v ∷ vs)) (trim_end-join v vs h.1)
        (join-ne_nil v vs h.1.0.not_empty))
      (λ e. cc)

-- The words of a line survive trimming and splitting, with or without a space behind them.
trim-join :
    (w : Text) (ws : List Text) (t : Text)
    → All IsWord (w ∷ ws)
    → trim_end (join space (w ∷ ws) ++ t) ≡ join space (w ∷ ws)
    → trim (join space (w ∷ ws) ++ t) ≡ join space (w ∷ ws)
unfolding join trim trim_start
trim-join [] ws t h e = absurd (h.0.not_empty refl)
trim-join (x ∷ w) [] t h e = rw (h.0.plain.0.visible) e
trim-join (x ∷ w) (v ∷ vs) t h e = rw (h.0.plain.0.visible) e

trim_word : (w : Text) → All IsPlain w → trim w ≡ w
unfolding trim trim_start trim_end
trim_word [] h = refl
trim_word (x ∷ w) h = rw (h.0.visible) (trim_end_word (x ∷ w) h)

module _ (w : Text) (ws : List Text) (h : All IsWord (w ∷ ws)) where
  line : Text
  line = join space (w ∷ ws)

  abbrev spaced : Text
  spaced = line ++ space ∷ []

  words_of :
      (t : Text) → trim_end (line ++ t) ≡ line → non_empty (split space (trim (line ++ t))) ≡ w ∷ ws
  unfolding line
  words_of t e =
      rw (trim-join w ws t h e, split-join space w ws (Lacks-space (w ∷ ws) h))
        (non_empty_id (w ∷ ws) (filled (w ∷ ws) h))

  words_of_spaced : non_empty (split space (trim spaced)) ≡ w ∷ ws
  words_of_spaced =
      words_of (space ∷ []) (trim_end_space line ∙ unfold line in trim_end-join w ws h)

  words_of_line : non_empty (split space (trim line)) ≡ w ∷ ws
  words_of_line =
      rw (append-nil line) at
        (words_of [] (rw (append-nil line) (unfold line in trim_end-join w ws h)))

  Lacks-spaced : (c : ℕ) → ((x : ℕ) → IsPlain x → x ≢ c) → space ≢ c → Lacks c spaced
  unfolding line
  Lacks-spaced c f hs = All-append _ line (space ∷ []) (All-join f hs (w ∷ ws) h) (hs, tt)

  Lacks-line : (c : ℕ) → ((x : ℕ) → IsPlain x → x ≢ c) → space ≢ c → Lacks c line
  unfolding line
  Lacks-line c f hs = All-join f hs (w ∷ ws) h

  parse-line : parse line ≡ ok (command w ws default default)
  unfolding parse_simple redirections
  parse-line =
      parse-Lacks line (Lacks-line b'|' (λ x p. p.not_bar) (omega arith))
      ∙ rw
          (
            find-Lacks b'<' line (Lacks-line b'<' (λ x p. p.not_in) (omega arith)),
            find-Lacks b'>' line (Lacks-line b'>' (λ x p. p.not_out) (omega arith)),
            words_of_line,
          )
          refl

  -- The whole line with a redirection lacks a sign that is not the one of the redirection.
  Lacks-whole :
      (c sign : ℕ) (p : Text)
      → ((x : ℕ) → IsPlain x → x ≢ c)
      → space ≢ c
      → sign ≢ c
      → IsWord p
      → Lacks c (spaced ++ sign ∷ space ∷ p)
  Lacks-whole c sign p f hs hc hp =
      All-append _ spaced _ (Lacks-spaced c f hs) (hc, (hs, All-map f p hp.plain))

  parse_from :
      (p : Text)
      → IsWord p
      → parse (spaced ++ b'<' ∷ space ∷ p) ≡ ok (command w ws (file p) default)
  unfolding parse_simple redirections
  parse_from p hp =
      parse-Lacks (spaced ++ b'<' ∷ space ∷ p)
        (Lacks-whole b'|' b'<' p (λ x q. q.not_bar) (omega arith) (omega arith) hp)
      ∙ rw
          (
            find-append b'<' spaced (space ∷ p) (Lacks-spaced b'<' (λ x q. q.not_in) (omega arith)),
            find-Lacks b'>' (spaced ++ b'<' ∷ space ∷ p)
                (Lacks-whole b'>' b'<' p (λ x q. q.not_out) (omega arith) (omega arith) hp),
            cut_at-append b'<' spaced (space ∷ p),
          )
          (rw (words_of_spaced, trim_space p, trim_word p hp.plain) refl)

  parse_to :
      (p : Text)
      → IsWord p
      → parse (spaced ++ b'>' ∷ space ∷ p) ≡ ok (command w ws default (file p))
  unfolding parse_simple redirections
  parse_to p hp =
      parse-Lacks (spaced ++ b'>' ∷ space ∷ p)
        (Lacks-whole b'|' b'>' p (λ x q. q.not_bar) (omega arith) (omega arith) hp)
      ∙ rw
          (
            find-append b'>' spaced (space ∷ p)
                (Lacks-spaced b'>' (λ x q. q.not_out) (omega arith)),
            find-Lacks b'<' (spaced ++ b'>' ∷ space ∷ p)
                (Lacks-whole b'<' b'>' p (λ x q. q.not_in) (omega arith) (omega arith) hp),
            cut_at-append b'>' spaced (space ∷ p),
          )
          (rw (words_of_spaced, trim_space p, trim_word p hp.plain) refl)

-- A line that names a program and its arguments, separated by single spaces, and at most one
-- redirection ` < path` or ` > path` is parsed to exactly these, if each word and the path are
-- non-empty and hold neither white space nor `|`, `<`, `>`.
pub parse-render :
    (w : Text) (ws : List Text) (r : Redirect)
    → All IsWord (w ∷ ws)
    → IsRedirect r
    → parse (render (w ∷ ws) r) ≡ ok (command w ws (input_of r) (output_of r))
unfolding render line
parse-render w ws none_given h hr = parse-line w ws h
parse-render w ws (from_file p) h hr = parse_from w ws h p hr
parse-render w ws (to_file p) h hr = parse_to w ws h p hr
