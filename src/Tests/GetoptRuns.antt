-- ===== src/Tests/GetoptRuns.antt =====
-- Runs of the command-line scanner.
use bksupport.Base.{
  ◌≡◌, refl, inl, List, [], ◌∷◌, ◌++◌, none, some, Bytes, codes, ok, fault, assert_failed,
}
use bksupport.LineText.{streq}
use bksupport.Shell.{is_free_of}
use bksupport.Getopt.{
  LongOpt, Scan, found, no_argument, getopt, getopt_reset, getopt_consumed, scan_word, short_option,
  find_letter, find_long, split_name, char_at, arg_at, letter_found, letter_argument, letter_alone,
  letter_apart, no_word_left,
}
use bksupport.Getopt.Word.{scan, is_plain, Tells, plain_event}
use bksupport.Getopt.Long.{no_value, behind_sign, in_next}
use bksupport.Getopt.Render.{
  Item, word, long, nothing, with_value, without, with_word, render, events, AreItems,
}
use bksupport.Getopt.Calls.{Ends}
use bksupport.Getopt.CommandLine.{dashes, getopt-render}
use bksupport.Getopt.Consumed.{getopt-getopt_consumed}
use bksupport.Getopt.NoArgument.{no_argument_next}

abbrev opts : Bytes
opts = codes "abc:d;e|"

abbrev url_opt : LongOpt
url_opt = record { name = codes "url:"; ret = 300 }

abbrev all_opt : LongOpt
all_opt = record { name = codes "all"; ret = 301 }

abbrev long_opts : List LongOpt
long_opts = url_opt ∷ all_opt ∷ []

abbrev items : List Item
items =
    word (codes "ab") nothing
    ∷ word (codes "xa") (with_value b'd' (codes "5-"))
    ∷ word (codes "a") (with_word b'c' (codes "value"))
    ∷ word [] (without b'e')
    ∷ long (codes "all") 301 no_value
    ∷ long (codes "url") 300 (behind_sign (codes "u:=v"))
    ∷ long (codes "url") 300 (in_next (codes "w"))
    ∷ []

abbrev args : List Bytes
args = codes "-x" ∷ codes "file" ∷ []

abbrev fresh : Scan
fresh = scan 7 none 3 2 0

items-AreItems : AreItems opts (some long_opts) items
unfolding is_plain find_letter find_long split_name streq is_free_of
items-AreItems = (
  (((refl, refl), refl, ((refl, refl), refl, tt)), tt, (b'a', codes "b", refl)),
  (
    (
      ((refl, refl), refl, ((refl, refl), refl, tt)),
      ((refl, refl), codes ";e|", refl, refl, refl),
      (b'x', codes "ad5-", refl),
    ),
    (
      (((refl, refl), refl, tt), ((refl, refl), codes "d;e|", refl, refl), (b'a', codes "c", refl)),
      (
        (tt, ((refl, refl), [], refl), (b'e', [], refl)),
        (
          (
            long_opts,
            all_opt,
            [],
            refl,
            (refl, refl),
            refl,
            refl,
            refl,
            inl refl,
            (b'a', codes "ll", refl),
          ),
          (
            (
              long_opts,
              url_opt,
              codes ":",
              refl,
              (refl, refl),
              refl,
              refl,
              refl,
              (b':', [], refl),
              (b'u', codes "rl", refl),
            ),
            (
              (
                long_opts,
                url_opt,
                codes ":",
                refl,
                (refl, refl),
                refl,
                refl,
                refl,
                ([], refl, refl),
                (b'u', codes "rl", refl),
              ),
              tt,
            ),
          ),
        ),
      ),
    ),
  ),
)

getopt-render_example :
    Ends
      (codes "bk" ∷ (render items ++ codes "--" ∷ args))
      opts
      (some long_opts)
      args
      (getopt_reset fresh)
      (events opts items)
getopt-render_example =
    getopt-render (codes "bk") opts (some long_opts) items (codes "--" ∷ args) args fresh
      items-AreItems (dashes args)

abbrev bad_line : List Bytes
bad_line = codes "bk" ∷ codes "-ad" ∷ codes "-b" ∷ []

no_argument_next_example :
    (getopt bad_line opts none (scan 1 none 2 1 0) ≡ ok (scan 2 none 2 1 b'd', no_argument))
    × (getopt bad_line opts none (scan 2 none 2 1 b'd') ≡ fault assert_failed)
unfolding find_letter
no_argument_next_example =
    no_argument_next bad_line opts none b'a' b'b' b'd' (codes "d") [] (codes "e|") [] 0 none 2 1 0
      refl refl refl refl refl refl refl refl refl

abbrev number_line : List Bytes
number_line = codes "bk" ∷ codes "-d12b" ∷ []

getopt-getopt_consumed_example :
    (st st' : Scan) × (getopt number_line opts none (scan 1 none 1 1 0) ≡ ok (st, found b'd'))
    × (st.optarg ≡ some (codes "12b"))
    × Tells (getopt number_line opts none (getopt_consumed st 3)) (plain_event opts b'b') st'
unfolding is_plain find_letter is_free_of
getopt-getopt_consumed_example =
    getopt-getopt_consumed number_line opts none b'd' b'd' b'1' b'b' (codes "12b") (codes "2") []
      (codes ";e|") [] 0 none 1 1 0 refl refl refl refl refl refl refl refl refl refl refl

missing_run :
    getopt (codes "bk" ∷ codes "-c" ∷ codes "-a" ∷ []) opts none (scan 1 none 1 1 0)
    ≡ ok (scan 1 none 1 1 b'c', no_argument)
unfolding getopt scan_word streq short_option find_letter char_at arg_at letter_found
    letter_argument letter_alone letter_apart no_word_left
missing_run = refl

consumed_run :
    getopt_consumed (scan 2 (some (codes "5b")) 1 1 0) 2 ≡ scan 1 (some (codes "5b")) 3 1 0
unfolding getopt_consumed
consumed_run = refl
