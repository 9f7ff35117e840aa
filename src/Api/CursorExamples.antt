-- ===== src/Api/CursorExamples.antt =====
-- Cursors of two searches, under codecs that stand for those of the standard library.
use mathlib.Core.Path.{subst}
use localmail.Api.Cursors.{
  decoded, text_walk, Library, repeat_char, WalkCursor, decode_search_cursor, split_on, rpartition,
  remove_prefix, parse_nonneg_int, encode_browse_cursor, decode_browse_cursor, encode_keyset_cursor,
  decode_keyset_cursor, is_keyset_cursor, encode_search_cursor, value_error,
}
use localmail.Api.Cursors.Plan.{
  by_date, resolve_cursor_plan, walk_continues, walk_for_text, or_default, is_rankable,
  resolve_sort,
}
use localmail.Keyset.{asc}
use localmail.Common.{
  leb, ℕ, ◌+◌, ◌-◌, ◌%◌, ◌≡◌, refl, sym, ap, Bool, true, false, ◌&&◌, Option, none, some, [], ◌∷◌,
  arith, ◌++◌,
}
use localmail.Api.Filters.{decimal_fuel, decimal}
use localmail.Query.Text.{Text, decimal_from, is_empty, codes, strip_left, strip_right, join_words}
use localmail.Api.Cursors.Next.{PageEnd, next_cursor}
use localmail.Api.Cursors.RoundTrip.{
  IsServed, plan_for, as_decoded, promised, next_cursor-resolve_cursor_plan,
}
use localmail.Api.Cursors.Stated.{IsHonoured, resolve_cursor_plan-IsHonoured}
use localmail.Common.Lists.{length}
use localmail.Api.Cursors.Browse.{Without, IsLibrary, decimal-Without}
use localmail.Query.Tokens.Whole.{append-nil}
use localmail.Api.Filters.Decimal.{IsBigint, decimal-decimal_from}
use localmail.Query.Tokens.{semantic_text, tokenize, scan, read_char}

program : Unit {0}
unfolding decimal_fuel decimal split_on rpartition remove_prefix parse_nonneg_int repeat_char
    encode_browse_cursor decode_browse_cursor encode_keyset_cursor decode_keyset_cursor
    is_keyset_cursor encode_search_cursor decode_search_cursor walk_for_text is_rankable
    resolve_sort resolve_cursor_plan next_cursor strip_left strip_right semantic_text tokenize scan
    read_char join_words
program = tt

-- Four characters for one, none of them `=`.
abbrev widen : Text → Text
widen [] = []
widen (c ∷ s) = (c + 62) ∷ 0 ∷ 0 ∷ 0 ∷ widen s

abbrev after_one : ℕ → Option Text → Option Text
after_one c none = none
after_one c (some s) = some ((c - 62) ∷ s)

abbrev narrow : Text → Option Text
narrow [] = some []
narrow (c ∷ d ∷ e ∷ f ∷ s) = after_one c (narrow s)
narrow _ = none

abbrev moment : Text → Option ℕ
moment s = some (decimal_from 0 s)

abbrev codecs : Library
codecs = record {
  b64encode = widen;
  b64decode = narrow;
  isoformat = decimal;
  fromisoformat = moment;
}

narrow-widen : (t : Text) → narrow (widen t) ≡ some t
narrow-widen [] = refl
narrow-widen (c ∷ t) = let same : c + 62 - 62 ≡ c = omega arith in rw (narrow-widen t, same) refl

widen-length : (t : Text) → (length (widen t) + 0) % 4 ≡ 0
widen-length [] = refl
widen-length (c ∷ t) = omega (arith, widen-length t)

widen-Without : (t : Text) → Without b'=' (widen t)
widen-Without [] = refl
widen-Without (c ∷ t) = ground (arith, widen-Without t)

widen_filled : (t : Text) → is_empty t ≡ false → is_empty (widen t) ≡ false
widen_filled [] h = h
widen_filled (c ∷ t) h = refl

codecs-IsLibrary : IsLibrary codecs
unfolding repeat_char
codecs-IsLibrary = record {
  b64_reads = narrow-widen;
  b64_padded = λ t. (
    widen t,
    0,
    sym (append-nil (widen t)),
    omega arith,
    widen-length t,
    widen-Without t,
    widen_filled t,
  );
  iso_reads = λ t. ap some (decimal-decimal_from t);
  iso_plain = λ t. decimal-Without b'|' t refl;
}

abbrev same_case : Text → Text
same_case s = s

abbrev letter : ℕ → Bool
letter c = leb b'a' c && leb c b'z'

abbrev position : WalkCursor
position = record { ts = some 1700; id = 42; order = asc; walk = text_walk }

abbrev dated_page : PageEnd
dated_page = record {
  next_keyset = some position;
  search_token = none;
  page = 1;
  has_more_in_pool = false;
  can_grow_pool = false;
  candidates_per_arm = 0;
}

dated_page-IsServed : IsServed dated_page (codes "tax")
unfolding program
dated_page-IsServed = record {
  walk_served = λ ks e. at_position ks e;
  token_served = λ token e. absurd (cc e);
  page_served = omega arith;
}
  where
    at_position :
        (ks : WalkCursor)
        → some position ≡ some ks
        → IsBigint ks.id × (walk_continues ks.walk (walk_for_text (codes "tax")) ≡ true)
    at_position ks e =
        subst (λ k. IsBigint k.id × (walk_continues k.walk (walk_for_text (codes "tax")) ≡ true))
          (ap (or_default position) e) (omega arith, refl)

next_cursor-resolve_cursor_plan_example :
    plan_for same_case letter codecs (codes "tax") (next_cursor codecs dated_page 100)
    ≡ as_decoded (promised dated_page 100)
unfolding program
next_cursor-resolve_cursor_plan_example =
    next_cursor-resolve_cursor_plan same_case letter codecs codecs-IsLibrary (codes "tax")
      dated_page 100 dated_page-IsServed

pool_read :
    decode_search_cursor (codes "a:b:12") ≡ decoded (record { token = codes "a:b"; page = 12 })
unfolding program
pool_read = refl

resolve_cursor_plan-IsHonoured_example :
    IsHonoured same_case letter codecs none
      (some by_date)
      (some asc)
      (codes "tax")
      (resolve_cursor_plan same_case letter codecs none (some by_date) (some asc) (codes "tax"))
unfolding program
resolve_cursor_plan-IsHonoured_example =
    resolve_cursor_plan-IsHonoured same_case letter codecs none (some by_date) (some asc)
      (codes "tax")

-- A page number that int() refuses.
endless_page : decode_search_cursor (codes "a:" ++ repeat_char 4301 b'1') ≡ value_error
unfolding program
endless_page = refl
