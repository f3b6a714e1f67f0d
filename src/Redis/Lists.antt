-- ===== src/Redis/Lists.antt =====
-- The lists of common/redis_op.c, and the loop that copies the elements of a reply.
use cloud_disk_server.Prelude.{ℕ, zero, suc, ◌-◌, not, ◌||◌, Option, none, some}
use cloud_disk_server.Prelude.{List, [], ◌∷◌, map, ltb, ◌==◌, if◌then◌else◌, length}
use cloud_disk_server.Prelude.Int.{ℤ, pos, negsuc, to_int, to_word, ◌+ℤ◌, ◌-ℤ◌}
use cloud_disk_server.Prelude.Outcome.{Outcome, done, fault}
use cloud_disk_server.Prelude.Text.{Bytes, codes}
use cloud_disk_server.Prelude.Buffer.{strncpy}
use cloud_disk_server.Redis.Hmset.{values_id_size}
use cloud_disk_server.Redis.Hiredis.{Hiredis, RedisReply, Command, args, text, number}
use cloud_disk_server.Redis.Hiredis.{M, ◌>>=◌, ret, follow, minus_one, is_integer, is_array}
use cloud_disk_server.Redis.Hiredis.{is_status, redis_command, lift}
use cloud_disk_server.Redis.Keys.{pipeline}

abbrev pub lpush_command : Bytes → Bytes → Command
lpush_command key v = args (text (codes "lpush") ∷ text key ∷ text v ∷ [])

-- `end_pos - from_pos + 1`; the sum fits an `int` for the callers.
unfoldable pub requested : ℤ → ℤ → ℤ
unfolding ◌+ℤ◌ ◌-ℤ◌
requested from_pos end_pos = end_pos -ℤ from_pos +ℤ pos 1

-- `(reply->elements > count) ? count : reply->elements`: the comparison is between `size_t` values,
-- so that a negative `count` is a very large one, and the result is stored in an `int`.
unfoldable pub max_count : ℕ → ℤ → ℤ
max_count elements count = if ltb (to_word 64 count) elements then count else to_int (pos elements)

-- The rounds of `for (i = 0; i < max_count; ++i)`.
abbrev pub rounds : ℤ → ℕ
rounds (pos n) = n
rounds (negsuc n) = 0

-- The loop from one index on: the rows of `values` that are left, the elements that are left, and
-- the rounds. `store` is what a round writes into its row.
unfoldable pub copy_loop :
    (Bytes → Bytes → Bytes) → ℕ → List (Option Bytes) → List Bytes → Outcome (List Bytes)
copy_loop store zero es rows = done rows
copy_loop store (suc n) [] rows = fault
copy_loop store (suc n) (e ∷ es) [] = fault
copy_loop store (suc n) (none ∷ es) (row ∷ rows) = fault
copy_loop store (suc n) (some str ∷ es) (row ∷ rows) = elim (copy_loop store n es rows) [
  | done rows' ↦ done (store row str ∷ rows')
  | fault ↦ fault
]

-- `strncpy(values[i], str, VALUES_ID_SIZE-1)`, with no NUL put at the end.
abbrev pub copy_row : Bytes → Bytes → Bytes
copy_row row str = strncpy row str (values_id_size - 1)

-- What a range call leaves: `retn`, the rows of `values`, and `*get_num` if it is written.
pub record RangeResult : Type 0 where
  pub retn : ℤ
  pub values : List Bytes
  pub get_num : Option ℤ

finish_range : (Bytes → Bytes → Bytes) → ℤ → RedisReply → List Bytes → Outcome RangeResult
unfolding copy_loop
finish_range store n r values = elim (copy_loop store (rounds n) r.element values) [
  | done values' ↦ done (record { retn = pos 0; values = values'; get_num = some n })
  | fault ↦ fault
]

-- The part of a range call behind its check of the reply.
unfoldable pub copy_range :
    (Bytes → Bytes → Bytes) → ℤ → ℤ → RedisReply → List Bytes → Outcome RangeResult
unfolding finish_range requested max_count
copy_range store from_pos end_pos r values =
    finish_range store (max_count (length r.element) (requested from_pos end_pos)) r values

module _ (h : Hiredis) where
  open h use {Context, Server}

  unfoldable pub rop_list_push_append : Option Context → Bytes → List Bytes → M Server ℤ
  unfolding pipeline
  rop_list_push_append conn key values = pipeline h conn (map (lpush_command key) values)

  unfoldable pub rop_list_push : Option Context → Bytes → Bytes → M Server ℤ
  rop_list_push conn key value = do
    reply ← redis_command h conn (args (text (codes "LPUSH") ∷ text key ∷ text value ∷ []))
    r ← follow reply
    ret (if not (is_integer r.kind) then minus_one else pos 0)

  unfoldable pub rop_get_list_cnt : Option Context → Bytes → M Server ℤ
  rop_get_list_cnt conn key = do
    reply ← redis_command h conn (args (text (codes "LLEN") ∷ text key ∷ []))
    r ← follow reply
    ret (if not (is_integer r.kind) then minus_one else to_int r.integer)

  unfoldable pub rop_trim_list : Option Context → Bytes → ℤ → ℤ → M Server ℤ
  rop_trim_list conn key from_pos end_pos = do
    reply ←
        redis_command h conn
          (args (text (codes "LTRIM") ∷ text key ∷ number from_pos ∷ number end_pos ∷ []))
    r ← follow reply
    ret (if not (is_status r.kind) then minus_one else pos 0)

  unfoldable pub rop_range_list : Option Context → Bytes → ℤ → ℤ → List Bytes → M Server RangeResult
  unfolding copy_range
  rop_range_list conn key from_pos end_pos values = do
    reply ←
        redis_command h conn
          (args (text (codes "LRANGE") ∷ text key ∷ number from_pos ∷ number end_pos ∷ []))
    r ← follow reply
    if not (is_array r.kind) || length r.element == 0
        then ret (record { retn = minus_one; values = values; get_num = none })
        else lift (copy_range copy_row from_pos end_pos r values)
