-- ===== src/Postgres/QueryBuilder/Plain.antt =====
-- Shared pieces of SQL that hold no placeholder.
use txova_go_db.Prelude.{
  Bool, true, false, List, [], ◌++◌, All, All-append, arith, length, ltb, if◌then◌else◌,
}
use txova_go_db.Text.{Text, codes, join, Lacks}
use txova_go_db.Text.Equality.{join-Lacks}
use txova_go_db.Postgres.Placeholders.{mark}
use txova_go_db.Postgres.QueryBuilder.{returning_clause}

pub if-Lacks :
    (b : Bool) (s t : Text) → Lacks mark s → Lacks mark t → Lacks mark (if b then s else t)
if-Lacks true s t hs ht = hs
if-Lacks false s t hs ht = ht

pub returning_clause-Lacks :
    (cols : List Text) → All (Lacks mark) cols → Lacks mark (returning_clause cols)
unfolding returning_clause
returning_clause-Lacks cols h =
    if-Lacks (ltb 0 (length cols)) (codes " RETURNING " ++ join cols (codes ", ")) []
      (All-append _ (codes " RETURNING ") _ (omega arith)
        (join-Lacks mark cols (codes ", ") h (omega arith)))
      tt
