-- ===== src/Api/Examples.antt =====
-- Requests for an attachment of ten bytes, and grants of two accounts.
use localmail.Common.{◌≡◌, refl, List, [], ◌∷◌, ℕ, true, false, some, none, if◌then◌else◌, Option}
use localmail.Common.Int.{pos, ℤ}
use localmail.Query.Text.{codes, strip_left, strip_right, Text, all, is_digit, decimal_from}
use localmail.Api.Blobs.{
  unmodified, stream_blob, blob_response, stream_slice, stream_from, split_etag_list,
  if_none_match_satisfies, if_range_allows_partial, part_sent,
}
use localmail.Api.Blobs.Served.{stream_blob-Serves, Serves}
use localmail.Api.Ranges.{
  number, parse_byte_range, ByteRange, suffix_range, open_ended_range, closed_range,
}
use localmail.Common.Table.{find, delete, select, count}
use localmail.Sync.Order.{sorted, insert_sorted}
use localmail.Api.Acl.{
  allowed_account_ids, user_has_account, grant_account, revoke_account, AclDb, Change,
  apply_changes, granting, has_after, revoking, apply_changes-allowed_account_ids,
}
use localmail.Daemon.Reconcile.{mem}
use localmail.Api.Ranges.Header.{range_fields}

program : Unit {0}
unfolding range_fields strip_left strip_right stream_blob blob_response stream_slice stream_from
    split_etag_list if_none_match_satisfies if_range_allows_partial suffix_range open_ended_range
    closed_range parse_byte_range find delete select count sorted insert_sorted allowed_account_ids
    user_has_account grant_account revoke_account
program = tt

abbrev part : ByteRange
part = record { start = 4; end = 9 }

abbrev bytes : List ℕ
bytes = 0 ∷ 1 ∷ 2 ∷ 3 ∷ 4 ∷ 5 ∷ 6 ∷ 7 ∷ 8 ∷ 9 ∷ []

-- `int` on digits alone
abbrev int : Text → Option ℤ
int s = if all is_digit s then some (pos (decimal_from 0 s)) else none

stream_blob-Serves_example :
    Serves false true
      (number (pos 4))
      (number (pos 20))
      10
      bytes
      7
      (part_sent part 6 (4 ∷ 5 ∷ 6 ∷ 7 ∷ 8 ∷ 9 ∷ [], false))
unfolding program
stream_blob-Serves_example =
    stream_blob-Serves int (some (codes "\"cd\"")) (some (codes " \"ab\"")) (codes "bytes= 4-20 ")
      (codes "ab") (number (pos 4)) (number (pos 20)) 10 bytes 7 refl

-- One entity tag that has commas in it, and is not the tag of the attachment.
commas_in_tag :
    stream_blob int (some (codes "\"a,*,b\"")) none none (codes "ab") 10 bytes ≡ unmodified
unfolding program
commas_in_tag = refl

abbrev acl : AclDb
acl = record { user_accounts = []; user_ids = 1 ∷ 2 ∷ []; account_ids = 7 ∷ 8 ∷ [] }

abbrev calls : List Change
calls = granting 1 8 ∷ granting 1 7 ∷ granting 2 9 ∷ revoking 1 8 ∷ []

one_account_left : allowed_account_ids (apply_changes acl calls) 1 ≡ 7 ∷ []
unfolding program
one_account_left = refl

apply_changes-allowed_account_ids_example :
    (mem 7 (allowed_account_ids (apply_changes acl calls) 1)
      ≡ user_has_account (apply_changes acl calls) 1 7)
    × (user_has_account (apply_changes acl calls) 1 7
        ≡ has_after acl.user_ids acl.account_ids 1 7 (user_has_account acl 1 7) calls)
unfolding program
apply_changes-allowed_account_ids_example = apply_changes-allowed_account_ids acl calls 1 7
