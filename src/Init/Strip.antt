-- ===== src/Init/Strip.antt =====
-- cmd/init/stripper.go: a file without the marked blocks of a feature. The lines of a file are shorter than
-- the buffer of the scanner, 10 MB.
use go_mongo_boilerplate.Base.{
  ℕ, ◌+◌, Bool, true, false, ◌&&◌, not, List, [], ◌∷◌, ◌++◌, Option, none, some, leb, ◌==◌,
  if◌then◌else◌,
}
use go_mongo_boilerplate.Base.Int.{pos}
use go_mongo_boilerplate.Stdlib.Text.{Text, codes}
use go_mongo_boilerplate.Stdlib.Decimal.{itoa}
use go_mongo_boilerplate.Stdlib.Errors.{GoError, plain, wrap}
use go_mongo_boilerplate.Stdlib.Search.{contains, is_blank, last?, drop_last, scan_lines}

unfoldable pub start_token : Text → Text
start_token feature = codes "feature:" ++ (feature ++ codes ":start")

unfoldable pub end_token : Text → Text
end_token feature = codes "feature:" ++ (feature ++ codes ":end")

-- The variables of the loop: what was flushed and what is kept since, the latest line first.
pub record Scan : Type 0 where
  pub out : List Text
  pub kept : List Text
  pub in_block : Bool
  pub line_no : ℕ
  pub start_line : ℕ

abbrev pub fresh : Scan
fresh = record { out = []; kept = []; in_block = false; line_no = 0; start_line = 0 }

-- The kept lines without a blank one at their end.
unfoldable pub drop_blank : List Text → List Text
drop_blank [] = []
drop_blank (l ∷ ls) = if is_blank l then ls else l ∷ ls

-- One round of the loop.
unfoldable pub scan_line : Text → Text → Text → Scan → Scan
unfolding drop_blank
scan_line start end l st =
    if not st.in_block && contains l start
    then record st {
      out = drop_blank st.kept ++ st.out;
      kept = [];
      in_block = true;
      line_no = st.line_no + 1;
      start_line = st.line_no + 1;
    }
    else if st.in_block && contains l end
    then record st { in_block = false; line_no = st.line_no + 1 }
    else if st.in_block
    then record st { line_no = st.line_no + 1 }
    else record st { kept = l ∷ st.kept; line_no = st.line_no + 1 }

unfoldable pub scan_all : Text → Text → List Text → Scan → Scan
unfolding scan_line
scan_all start end [] st = st
scan_all start end (l ∷ ls) st = scan_all start end ls (scan_line start end l st)

-- What the last flush leaves, the latest line first.
unfoldable pub written : Scan → List Text
written st = st.kept ++ st.out

-- The bytes of the lines, which come the latest first.
unfoldable pub join_onto : List Text → Text → Text
join_onto [] s = s
join_onto (l ∷ ls) s = join_onto ls (l ++ (10 ∷ s))

-- No newline at the end, unless the file had one.
unfoldable pub fit_end : Text → Text → Text
fit_end input result = elim (last? input) [
  | none ↦ result
  | some c ↦ elim (last? result) [
    | none ↦ result
    | some d ↦ if not (c == 10) && d == 10 then drop_last result else result
  ]
]

-- The loop of `collapseBlankRuns`.
unfoldable pub collapse_from : ℕ → Text → Text
collapse_from streak [] = []
collapse_from streak (c ∷ s) =
    let more = collapse_from (streak + 1) s in
    let again = collapse_from 0 s in
    if c == 10 then (if leb (streak + 1) 2 then c ∷ more else more) else c ∷ again

unfoldable pub collapse_blank_runs : Text → Text
unfolding collapse_from
collapse_blank_runs b = collapse_from 0 b

-- What a read of the file gives.
pub data Read : Type 0 where
  missing : Read
  unreadable : GoError → Read
  contents : Text → Read

-- What is done to the file.
pub data Strip : Type 0 where
  untouched : Option GoError → Strip
  rewritten : Text → Strip

unfoldable pub unclosed : Text → Text → ℕ → GoError
unclosed path feature line = plain (
    path
    ++ (codes ": unclosed feature:"
        ++ (feature ++ (codes " block opened at line " ++ itoa (pos line)))))

unfoldable pub after_scan : Text → Text → Text → Scan → Strip
unfolding unclosed join_onto fit_end collapse_blank_runs written
after_scan path feature input st =
    if st.in_block
    then untouched (some (unclosed path feature st.start_line))
    else rewritten (collapse_blank_runs (fit_end input (join_onto (written st) [])))

-- `stripFeatureFromFile`, up to the write of the result, whose error is passed on.
unfoldable pub strip_feature : Text → Text → Read → Strip
unfolding after_scan scan_all start_token end_token
strip_feature path feature missing = untouched none
strip_feature path feature (unreadable err) =
    untouched (some (wrap (codes "read " ++ (path ++ codes ": ")) err []))
strip_feature path feature (contents input) =
    after_scan path feature input
      (scan_all (start_token feature) (end_token feature) (scan_lines input) fresh)
