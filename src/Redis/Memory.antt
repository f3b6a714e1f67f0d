-- ===== src/Redis/Memory.antt =====
-- A Redis server in memory that answers as documented.
use cloud_disk_server.Prelude.{true, false, Option, none, some, List, [], ◌∷◌, refl}
use cloud_disk_server.Prelude.{if◌then◌else◌}
use cloud_disk_server.Prelude.Text.{Bytes, codes, eqb}
use cloud_disk_server.Redis.Hiredis.{Hiredis, RedisReply, Command, args, raw, text, number}
use cloud_disk_server.Redis.Store.{Store, ok_reply, integer_reply, value_reply, held}
use cloud_disk_server.Redis.Ranges.{array_reply}

abbrev pub Strings : Type 0
Strings = Bytes → Option Bytes

-- A library over the answers of a server; each pipelined command is taken and answered.
abbrev pub serving : {S : Type 0} → (Command → S → Option RedisReply × S) → Hiredis
serving {S} answer = record {
  Context = Unit;
  Server = S;
  command = λ c cmd s. answer cmd s;
  append_command = λ c cmd s. (true, s);
  get_reply = λ c s. (true, s);
  connect = λ host port s. (some tt, s);
  connect_timeout = λ host port seconds s. (some tt, s);
  connect_unix = λ path s. (some tt, s);
  failed = λ c. false;
  free = λ c s. s;
}

abbrev pub names : List Bytes
names = codes "b" ∷ codes "a" ∷ []

abbrev answer : Command → Strings → Option RedisReply × Strings
answer (raw t) s = (none, s)
answer (args (text w ∷ text k ∷ text v ∷ [])) s =
    (some ok_reply, λ j. if eqb k j then some v else s j)
answer (args (text w ∷ text k ∷ [])) s = (some (value_reply (s k)), s)
answer (args (text w ∷ text k ∷ number n ∷ [])) s = (some (integer_reply (held (s k))), s)
answer (args (text w ∷ text k ∷ number a ∷ number b ∷ [])) s = (some (array_reply names), s)
answer (args _) s = (none, s)

abbrev pub memory : Hiredis
memory = serving answer

abbrev pub memory_store : Store memory tt
memory_store = record {
  value_at = λ s k. s k;
  set_reply = λ s k v. refl;
  set_value = λ s k v j. refl;
  get_reply = λ s k. refl;
  expire_reply = λ s k n positive. refl;
  expire_value = λ s k n j positive. refl;
}

abbrev pub nothing : Strings
nothing k = none
