-- ===== src/Redis/HashRuns.antt =====
-- The theorems on the hash tables and the scores of common/redis_op.c at concrete inputs.
use cloud_disk_server.Prelude.{refl, ℕ, ◌&&◌, if◌then◌else◌, Option, none}
use cloud_disk_server.Prelude.{◌≡◌, arith, some, List, [], ◌∷◌, ◌++◌, ◌+◌, length, drop, replicate}
use cloud_disk_server.Prelude.Int.{pos}
use cloud_disk_server.Prelude.Outcome.{done, fault}
use cloud_disk_server.Prelude.Text.{Bytes, codes, eqb}
use cloud_disk_server.Redis.Hiredis.{Hiredis, RedisReply, Command, args, text, minus_one}
use cloud_disk_server.Redis.Store.{value_reply}
use cloud_disk_server.Redis.Memory.{serving}
use cloud_disk_server.Redis.Zset.{rop_zset_increment, rop_zset_get_score}
use cloud_disk_server.Redis.Scores.{Scores, score_text, next_score, rop_zset_increment-get_score}
use cloud_disk_server.Redis.Hash.{
  rop_hash_set, rop_hash_get, rop_hash_del, rop_create_or_replace_hash_table,
}
use cloud_disk_server.Redis.HashStore.{overlaid}
use cloud_disk_server.Redis.HashTrip.{
  read_back, rop_hash_set-rop_hash_get, rop_create_or_replace_hash_table-overlaid,
}
use cloud_disk_server.Redis.HashMemory.{Tables, tables, tables_store, no_tables, plain}

rop_hash_set-rop_hash_get_example :
    (t : Tables) × (u : Tables) × (rop_hash_set tables
        (some tt)
        (codes "k")
        (codes "f")
        (codes "v")
        no_tables
      ≡ done (pos 0, t))
    × (rop_hash_get tables (some tt) (codes "k") (codes "f") (replicate 4 9) t
        ≡ done ((pos 0, codes "v" ++ (0 ∷ drop (length (codes "v") + 1) (replicate 4 9))), t))
    × (rop_hash_del tables (some tt) (codes "k") (codes "f") t ≡ done (pos 0, u))
    × (rop_hash_get tables (some tt) (codes "k") (codes "f") (replicate 4 9) u
        ≡ done ((minus_one, replicate 4 9), u))
    × (rop_hash_del tables (some tt) (codes "k") (codes "f") u ≡ fault)
rop_hash_set-rop_hash_get_example =
    rop_hash_set-rop_hash_get tables tt tables_store (codes "k") (codes "f") (codes "v")
      (replicate 4 9) no_tables (omega arith) (omega arith)

abbrev one_pair : List (Bytes × Bytes)
one_pair = (codes "f", codes "v") ∷ []

-- A table of the same key that holds the field `g`.
abbrev older : Tables
older k g = some (codes "old")

rop_create_or_replace_hash_table-overlaid_example :
    (t : Tables) × (rop_create_or_replace_hash_table tables (some tt) (codes "k") one_pair older
      ≡ done (pos 0, t))
    × (rop_hash_get tables (some tt) (codes "k") (codes "g") (replicate 4 9) t
        ≡ done (read_back (overlaid one_pair (codes "g") (some (codes "old"))) (replicate 4 9), t))
unfolding overlaid eqb
rop_create_or_replace_hash_table-overlaid_example =
    rop_create_or_replace_hash_table-overlaid tables tt tables_store (codes "k")
      (codes "f", codes "v") [] (codes "g") (replicate 4 9) older
      (plain b'k' (omega arith) (omega arith), tt)
      (
        (
          (plain b'f' (omega arith) (omega arith), tt),
          (plain b'v' (omega arith) (omega arith), tt),
        ),
        tt,
      )
      (omega arith) ((omega arith, omega arith), tt) (omega arith) (omega arith, omega arith)

-- A server that keeps scores.
abbrev Ranks : Type 0
Ranks = Bytes → Bytes → Option ℕ

abbrev rank_answer : Command → Ranks → Option RedisReply × Ranks
rank_answer (args (text w ∷ text k ∷ text by ∷ text m ∷ [])) s = (
  some (value_reply (score_text (some (next_score (s k m))))),
  λ j q. if eqb k j && eqb m q then some (next_score (s k m)) else s j q,
)
rank_answer (args (text w ∷ text k ∷ text m ∷ [])) s = (some (value_reply (score_text (s k m))), s)
rank_answer _ s = (none, s)

abbrev ranks : Hiredis
ranks = serving rank_answer

abbrev ranks_scores : Scores ranks tt
ranks_scores = record {
  score_at = λ s k m. s k m;
  zincrby_reply = λ s k m below. refl;
  zincrby_value = λ s k m j q below. refl;
  zscore_reply = λ s k m below. refl;
}

abbrev four : Ranks
four k m = some 4

rop_zset_increment-get_score_example :
    (t : Ranks) × (rop_zset_increment ranks (some tt) (codes "hot") (codes "a.txt") four
      ≡ done (minus_one, t))
    × (rop_zset_get_score ranks (some tt) (codes "hot") (codes "a.txt") t ≡ done (pos 5, t))
    × ((j q : Bytes)
        → t j q ≡ (if eqb (codes "hot") j && eqb (codes "a.txt") q then some 5 else some 4))
rop_zset_increment-get_score_example =
    rop_zset_increment-get_score ranks tt ranks_scores (codes "hot") (codes "a.txt") four
      (omega arith)
