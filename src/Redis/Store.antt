-- ===== src/Redis/Store.antt =====
-- What is assumed of a Redis server that answers: the documented replies of the commands SET, GET
-- and EXPIRE, over the strings that it holds.
use cloud_disk_server.Prelude.{ℕ, ◌<◌, Option, none, some, [], ◌∷◌, ◌≡◌}
use cloud_disk_server.Prelude.{if◌then◌else◌}
use cloud_disk_server.Prelude.Int.{ℤ, pos}
use cloud_disk_server.Prelude.Text.{Bytes, codes, eqb}
use cloud_disk_server.Redis.Hiredis.{Hiredis, RedisReply, ReplyType, Command, args, text, number}

abbrev pub ok_reply : RedisReply
ok_reply = record {
  kind = ReplyType.status_reply;
  integer = pos 0;
  str = some (codes "OK");
  element = [];
}

abbrev pub integer_reply : ℕ → RedisReply
integer_reply n = record {
  kind = ReplyType.integer_reply;
  integer = pos n;
  str = none;
  element = [];
}

-- A bulk string, or nil for a key that is not there.
abbrev pub value_reply : Option Bytes → RedisReply
value_reply none = record { kind = ReplyType.nil_reply; integer = pos 0; str = none; element = [] }
value_reply (some v) = record {
  kind = ReplyType.string_reply;
  integer = pos 0;
  str = some v;
  element = [];
}

abbrev pub held : Option Bytes → ℕ
held none = 0
held (some v) = 1

abbrev pub set_command : Bytes → Bytes → Command
set_command k v = args (text (codes "set") ∷ text k ∷ text v ∷ [])

abbrev pub get_command : Bytes → Command
get_command k = args (text (codes "get") ∷ text k ∷ [])

abbrev pub expire_command : Bytes → ℤ → Command
expire_command k n = args (text (codes "EXPIRE") ∷ text k ∷ number n ∷ [])

-- `value_at s` is what the server holds in the state `s`. The three commands are documented to
-- answer as stated; EXPIRE is given a positive number
-- of seconds and taken before the time has passed; with another number it removes the key.
pub record Store (h : Hiredis) (c : h.Context) : Type 0 where
  pub value_at : h.Server → Bytes → Option Bytes
  pub set_reply : (s : h.Server) (k v : Bytes) → (h.command c (set_command k v) s).0 ≡ some ok_reply
  pub set_value :
      (s : h.Server) (k v j : Bytes)
      → value_at (h.command c (set_command k v) s).1 j ≡ (if eqb k j then some v else value_at s j)
  pub get_reply :
      (s : h.Server) (k : Bytes)
      → h.command c (get_command k) s ≡ (some (value_reply (value_at s k)), s)
  pub expire_reply :
      (s : h.Server) (k : Bytes) (n : ℕ)
      → 0 < n
      → (h.command c (expire_command k (pos n)) s).0 ≡ some (integer_reply (held (value_at s k)))
  pub expire_value :
      (s : h.Server) (k : Bytes) (n : ℕ) (j : Bytes)
      → 0 < n
      → value_at (h.command c (expire_command k (pos n)) s).1 j ≡ value_at s j
