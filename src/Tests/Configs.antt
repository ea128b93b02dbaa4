-- ===== src/Tests/Configs.antt =====
-- Configuration files.
use bev_search.Common.{Option, ◌≡◌, refl, arith, some, none, [], ◌∷◌, ◌++◌, false}
use bev_search.CString.{codes, is_alnum, is_space, strcspn}
use bev_search.Strings.{c_str, substr, strlcpy, copy, trimr}
use mathlib.Core.Option
use bev_search.Hlist.{Hlist, node, add}
use bev_search.Config.{
  Parsing, run, skip, is_over, add_option, plain_value, value_at, section_at, word_at, parse_line,
  use_line, config_open,
}
use bev_search.Config.Entry.{IsKey, opened}
use bev_search.Config.File.{Entry, IsEntry, print, options_of, config_open-print}
use bev_search.Config.Quotes.{use_line-quotes}

user-IsKey : IsKey (codes "Username")
unfolding is_alnum
user-IsKey = record {
  some_bytes = omega arith;
  alnum = (refl, (refl, (refl, (refl, (refl, (refl, (refl, (refl, tt))))))));
}

abbrev entry : Entry
entry = record { key = codes "Username"; value = codes "a; #b" }

entry-IsEntry : IsEntry entry
entry-IsEntry = record {
  key = user-IsKey;
  some_bytes = omega arith;
  text = omega arith;
  plain = omega arith;
  line = omega arith;
  short = omega arith;
}

config_open-print_example :
    config_open (print (entry ∷ entry ∷ []) (codes "Password x"))
    ≡ some (record { options = options_of (entry ∷ entry ∷ []) })
config_open-print_example =
    config_open-print (entry ∷ entry ∷ []) (codes "Password x") (entry-IsEntry, (entry-IsEntry, tt))
      (omega arith) (omega arith)

-- A line buffer that is shorter than the program's, so that the run is short.
abbrev begun : Parsing
begun = record { section = codes "global"; options = []; buf = 0 ∷ 0 ∷ 0 ∷ [] }

use_line-quotes_example :
    ((p' : Parsing) × (use_line begun (record {
      line = opened (codes "Username") (codes "\"" ++ 10 ∷ []);
      rest = [];
      eof = false;
    })
        ≡ some p')
      × (p'.options ≡ node (codes "Username") (codes "\"" ++ 10 ∷ []) ∷ []))
    × (use_line begun (record {
      line = opened (codes "Username") (codes "alice" ++ 10 ∷ []);
      rest = [];
      eof = false;
    })
        ≡ none)
use_line-quotes_example =
    use_line-quotes begun (codes "Username") user-IsKey (codes "alice" ++ 10 ∷ []) [] (omega arith)
      (omega arith) (omega arith) (omega arith) (omega arith) (omega arith)

abbrev ap_options : Option Parsing → Option Hlist
ap_options = Option.map (λ (p : Parsing). p.options)

-- A plain value before a comment.
plain_run :
    ap_options (parse_line begun (codes "  Domain  corp # ours"))
    ≡ some (node (codes "Domain") (codes "corp") ∷ [])
unfolding parse_line word_at value_at plain_value section_at is_over skip run add_option add substr
    strlcpy copy c_str trimr is_alnum is_space strcspn
plain_run = refl
