-- ===== src/Keyset/Examples.antt =====
-- A descending walk over four messages, two of them undated, with pages of one row.
use localmail.Common.{ℕ, ◌≡◌, refl, none, some, [], ◌∷◌, arith, Bool, Option, List}
use localmail.Keyset.{insert_by, Message, order_by, desc, fetch, before, date_keyset_search, select}
use localmail.Keyset.Client.{walk, walk-order_by}
use localmail.Keyset.Ordered.{IsOrdered}
use localmail.Common.Table.{select, count}

program : Unit {0}
unfolding insert_by order_by fetch date_keyset_search walk select count
program = tt

abbrev message : ℕ → Option ℕ → Message
message id date = record { id = id; internal_date = date; date_sent = none }

abbrev inbox : List Message
inbox = message 1 none ∷ message 2 (some 20) ∷ message 3 (some 10) ∷ message 4 none ∷ []

newest_first :
    walk desc inbox 1 5 none
    ≡ message 2 (some 20) ∷ message 3 (some 10) ∷ message 4 none ∷ message 1 none ∷ []
unfolding program
newest_first = refl

walk-order_by_example :
    (walk desc inbox 1 5 none ≡ order_by (before desc) inbox)
    × IsOrdered (before desc) (walk desc inbox 1 5 none)
    × ((p : Message → Bool) → count p (walk desc inbox 1 5 none) ≡ count p inbox)
unfolding program
walk-order_by_example =
    walk-order_by desc inbox 1
      ((refl, (refl, (refl, tt))), ((refl, (refl, tt)), ((refl, tt), (tt, tt)))) (omega arith) 5
      (omega arith)
