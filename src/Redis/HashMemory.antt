-- ===== src/Redis/HashMemory.antt =====
-- A Redis server in memory that keeps hash tables and answers as documented.
use cloud_disk_server.Prelude.{
  ℕ, ◌<◌, ◌≡◌, refl, ap, ◌∙◌, arith, Bool, Option, none, some, List, [], ◌∷◌, ◌++◌, append-nil,
}
use cloud_disk_server.Prelude.{◌==◌, ◌&&◌, if◌then◌else◌, get_or, All}
use cloud_disk_server.Prelude.Split.{split, HasNo, split-piece, split-last}
use cloud_disk_server.Prelude.Text.{Bytes, codes, eqb}
use cloud_disk_server.Redis.Hiredis.{Hiredis, RedisReply, Command, args, raw, text}
use cloud_disk_server.Redis.HmsetText.{pair_words}
use cloud_disk_server.Redis.Store.{ok_reply, integer_reply, value_reply, held}
use cloud_disk_server.Redis.HashStore.{
  HashStore, added, overlaid, IsPlain, IsWord, IsWordPair, hmset_command,
}
use cloud_disk_server.Redis.Memory.{serving}

abbrev pub Tables : Type 0
Tables = Bytes → Bytes → Option Bytes

abbrev to_pairs : List Bytes → List (Bytes × Bytes)
to_pairs (f ∷ v ∷ rest) = (f, v) ∷ to_pairs rest
to_pairs _ = []

abbrev taken : List Bytes → Tables → Option RedisReply × Tables
taken (w ∷ k ∷ rest) s =
    (some ok_reply, λ j g. if eqb k j then overlaid (to_pairs rest) g (s j g) else s j g)
taken _ s = (none, s)

abbrev is_hdel : Bytes → Bool
is_hdel w = get_or w 1 0 == b'd'

-- A text is split at each space, as hiredis does.
abbrev pub answer : Command → Tables → Option RedisReply × Tables
answer (raw t) s = taken (split 32 t) s
answer (args (text w ∷ text k ∷ text f ∷ text v ∷ [])) s =
    (some (integer_reply (added (s k f))), λ j g. if eqb k j && eqb f g then some v else s j g)
answer (args (text w ∷ text k ∷ text f ∷ [])) s =
    if is_hdel w
    then (some (integer_reply (held (s k f))), λ j g. if eqb k j && eqb f g then none else s j g)
    else (some (value_reply (s k f)), s)
answer (args _) s = (none, s)

abbrev pub tables : Hiredis
tables = serving answer

IsPlain-HasNo : (w : Bytes) → All IsPlain w → HasNo 32 w
IsPlain-HasNo [] plain = tt
IsPlain-HasNo (x ∷ xs) (plain, more) = (plain.1, IsPlain-HasNo xs more)

split-word : (w rest : Bytes) → All IsPlain w → split 32 (w ++ (32 ∷ rest)) ≡ w ∷ split 32 rest
split-word w rest plain = split-piece 32 w rest (IsPlain-HasNo w plain)

word-IsPlain : (w : Bytes) → IsWord w → All IsPlain w
word-IsPlain [] word = absurd word
word-IsPlain (x ∷ xs) word = word

in_line : List (Bytes × Bytes) → List Bytes
in_line [] = []
in_line ((f, v) ∷ rest) = f ∷ v ∷ in_line rest

split-pairs :
    (w : Bytes) (pairs : List (Bytes × Bytes))
    → All IsPlain w
    → All IsWordPair pairs
    → split 32 (w ++ pair_words pairs) ≡ w ∷ in_line pairs
unfolding in_line
split-pairs w [] plain words =
    ap (split 32) (append-nil w) ∙ split-last 32 w (IsPlain-HasNo w plain)
split-pairs w ((f, v) ∷ rest) plain (word, words) =
    split-word w (f ++ (32 ∷ (v ++ pair_words rest))) plain
    ∙ ap (◌∷◌ w) (
        split-word f (v ++ pair_words rest) (word-IsPlain f word.0)
        ∙ ap (◌∷◌ f) (split-pairs v rest (word-IsPlain v word.1) words))

to_pairs-in_line : (pairs : List (Bytes × Bytes)) → to_pairs (in_line pairs) ≡ pairs
unfolding in_line
to_pairs-in_line [] = refl
to_pairs-in_line ((f, v) ∷ rest) = ap (◌∷◌ (f, v)) (to_pairs-in_line rest)

pub plain : (x : ℕ) → 32 < x → b'%' < x → IsPlain x
plain x h g = (omega arith, (λ e. absurd (omega (arith, e))), (λ e. absurd (omega (arith, e))))

-- What HMSET does to the tables.
abbrev pub merged : Bytes → List (Bytes × Bytes) → Tables → Option RedisReply × Tables
merged k pairs s = (some ok_reply, λ j g. if eqb k j then overlaid pairs g (s j g) else s j g)

pub hmset_answer :
    (k : Bytes) (pairs : List (Bytes × Bytes)) (s : Tables)
    → IsWord k
    → All IsWordPair pairs
    → answer (hmset_command k pairs) s ≡ merged k pairs s
hmset_answer k pairs s word words =
    ap (λ (ws : List Bytes). taken ws s)
      (split-word (codes "hmset") (k ++ pair_words pairs) hmset_plain
        ∙ ap (◌∷◌ (codes "hmset")) (split-pairs k pairs (word-IsPlain k word) words))
    ∙ ap (λ (ps : List (Bytes × Bytes)). merged k ps s) (to_pairs-in_line pairs)
  where
    hmset_plain : All IsPlain (codes "hmset")
    hmset_plain = (
      plain 104 (omega arith) (omega arith),
      (
        plain 109 (omega arith) (omega arith),
        (
          plain 115 (omega arith) (omega arith),
          (plain 101 (omega arith) (omega arith), (plain 116 (omega arith) (omega arith), tt)),
        ),
      ),
    )

abbrev pub tables_store : HashStore tables tt
tables_store = record {
  field_at = λ s k f. s k f;
  hset_reply = λ s k f v. refl;
  hset_value = λ s k f v j g. refl;
  hget_reply = λ s k f. refl;
  hdel_reply = λ s k f. refl;
  hdel_value = λ s k f j g. refl;
  hmset_reply = λ s k p pairs word words. ap (λ r. r.0) (hmset_answer k (p ∷ pairs) s word words);
  hmset_value =
      λ s k p pairs j g word words. ap (λ r. r.1 j g) (hmset_answer k (p ∷ pairs) s word words);
}

abbrev pub no_tables : Tables
no_tables k f = none
