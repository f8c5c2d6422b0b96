-- ===== src/Samples/Parser.antt =====
-- The theorems on the shell's parser and on error numbers at concrete commands and numbers.
use parch_testbench.Prelude.{◌≡◌, ◌≢◌, ◌↔◌, refl, [], ◌∷◌, codes, Lacks, arith}
use parch_testbench.ErrorNum.{enoent, code, ok, try_from}
use parch_testbench.ErrorNum.Codes.{try_from_iff}
use parch_testbench.Strings.{
  find, strip_char, trim, trim_start, trim_end, is_whitespace, split, non_empty,
}
use parch_testbench.Shell.Command
use parch_testbench.Shell.Command.{
  parse_err, command, default, file, Parse, ◌>>=◌, unwrap, build, some_trimmed, parse, parse_fuel,
  parse_found, parse_simple, redirections, cut_at, split_at,
}
use parch_testbench.Shell.Command.Pipes.{parse_accepts}
use parch_testbench.Shell.Command.Redirects.{both_redirections, two_signs, words, IsFree}
use parch_testbench.Shell.Command.Returns.{parse_ends, parse-IsParsed, IsParsed}
use parch_testbench.Shell.Command.Words.{parse-render, render, IsWord, IsPlain, from_file}

letter_l : IsPlain b'l'
unfolding is_whitespace
letter_l = record {
  visible = refl;
  not_bar = omega arith;
  not_in = omega arith;
  not_out = omega arith;
}

letter_s : IsPlain b's'
unfolding is_whitespace
letter_s = record {
  visible = refl;
  not_bar = omega arith;
  not_in = omega arith;
  not_out = omega arith;
}

-- A word of two letters.
two_letters : IsWord (codes "ls")
two_letters = record { not_empty = λ e. cc; plain = (letter_l, (letter_s, tt)) }

parse-render_example :
    parse (render (codes "ls" ∷ codes "ls" ∷ []) (from_file (codes "ls")))
    ≡ Command.ok (command (codes "ls") (codes "ls" ∷ []) (file (codes "ls")) default)
parse-render_example =
    parse-render (codes "ls") (codes "ls" ∷ []) (from_file (codes "ls"))
      (two_letters, (two_letters, tt)) two_letters

accepted :
    parse (codes "ls -l") ≡ Command.ok (command (codes "ls") (codes "-l" ∷ []) default default)
unfolding parse parse_fuel parse_found parse_simple redirections cut_at split_at find strip_char
    trim trim_start trim_end is_whitespace split non_empty
accepted = refl

parse_accepts_example :
    Lacks b'|' (codes "ls -l")
    × (parse_simple (codes "ls -l")
        ≡ Command.ok (command (codes "ls") (codes "-l" ∷ []) default default))
parse_accepts_example =
    parse_accepts (codes "ls -l") (command (codes "ls") (codes "-l" ∷ []) default default) accepted

IsFree-letter : IsFree (codes "e")
IsFree-letter = record {
  no_bar = (omega arith, tt);
  no_in = (omega arith, tt);
  no_out = (omega arith, tt);
}

both_redirections_example :
    (parse (two_signs b'<' b'>' (codes "e") (codes "e") (codes "b")) ≡ (
      unwrap (strip_char b'>' (codes "b")) >>= λ o.
      build (words (codes "e")) (some_trimmed (codes "e>")) (some_trimmed o)))
    × (parse (two_signs b'>' b'<' (codes "e") (codes "e") (codes "b")) ≡ (
        unwrap (strip_char b'<' (codes "b")) >>= λ i.
        build (words (codes "e")) (some_trimmed i) (some_trimmed (codes "e<"))))
both_redirections_example =
    both_redirections (codes "e") (codes "e") (codes "b") IsFree-letter IsFree-letter
      (omega arith, tt)

parse_ends_example : parse (codes "ls | cat | wc") ≢ Command.starved
parse_ends_example = parse_ends (codes "ls | cat | wc")

parse-IsParsed_example : IsParsed (command (codes "ls") (codes "-l" ∷ []) default default)
parse-IsParsed_example =
    parse-IsParsed (codes "ls -l") (command (codes "ls") (codes "-l" ∷ []) default default) accepted

try_from_iff_example : (try_from 2 ≡ ok enoent) ↔ (code enoent ≡ 2)
try_from_iff_example = try_from_iff 2 enoent
