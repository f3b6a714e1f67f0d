-- ===== src/Redis/Scores.antt =====
-- The scores of a sorted set of common/redis_op.c, on a server that answers as documented.
use cloud_disk_server.Prelude.{
  ℕ, suc, ◌<◌, ◌≤◌, ◌^◌, ◌≡◌, refl, ◌∙◌, arith, false, Option, none, some, [], ◌∷◌, ◌&&◌,
  if◌then◌else◌, All,
}
use cloud_disk_server.Prelude.Int.{pos}
use cloud_disk_server.Prelude.Decimal.{decimal}
use cloud_disk_server.Prelude.Printed.{IsDigit, atoi-decimal, decimal-AreDigits}
use cloud_disk_server.Prelude.Outcome.{done}
use cloud_disk_server.Prelude.Text.{Bytes, codes, eqb, eqb_refl}
use cloud_disk_server.Redis.Hiredis.{Hiredis, Command, args, text, minus_one, redis_command}
use cloud_disk_server.Redis.Store.{value_reply}
use cloud_disk_server.Redis.Zset.{zincrby_command, rop_zset_increment, rop_zset_get_score}

abbrev pub zscore_command : Bytes → Bytes → Command
zscore_command k m = args (text (codes "ZSCORE") ∷ text k ∷ text m ∷ [])

-- A score as the server prints it.
abbrev pub score_text : Option ℕ → Option Bytes
score_text none = none
score_text (some n) = some (decimal (pos n))

abbrev pub next_score : Option ℕ → ℕ
next_score none = 1
next_score (some n) = suc n

-- `score_at s` are the scores that the server holds in the state `s`, by the key and the member, of
-- sets whose scores are whole numbers from 0 on, below 10 ^ 10. ZINCRBY by 1 and ZSCORE are documented to answer
-- as stated.
pub record Scores (h : Hiredis) (c : h.Context) : Type 0 where
  pub score_at : h.Server → Bytes → Bytes → Option ℕ
  pub zincrby_reply :
      (s : h.Server) (k m : Bytes)
      → next_score (score_at s k m) < 10 ^ 10
      → (h.command c (zincrby_command k m) s).0
        ≡ some (value_reply (score_text (some (next_score (score_at s k m)))))
  pub zincrby_value :
      (s : h.Server) (k m j q : Bytes)
      → next_score (score_at s k m) < 10 ^ 10
      → score_at (h.command c (zincrby_command k m) s).1 j q
        ≡ (if eqb k j && eqb m q then some (next_score (score_at s k m)) else score_at s j q)
  pub zscore_reply :
      (s : h.Server) (k m : Bytes)
      → next_score (score_at s k m) ≤ 10 ^ 10
      → h.command c (zscore_command k m) s ≡ (some (value_reply (score_text (score_at s k m))), s)

not_ok : (xs : Bytes) → All IsDigit xs → eqb xs (codes "OK") ≡ false
unfolding eqb
not_ok [] all = refl
not_ok (x ∷ xs) (first, all) = ground (arith, first.1)

module _ (h : Hiredis) (c : h.Context) (st : Scores h c) where
  open h use {Server, command}
  open st use {score_at, zincrby_reply, zincrby_value, zscore_reply}

  get_score_lem :
      (k m : Bytes) (n : ℕ) (s : Server)
      → score_at s k m ≡ some n
      → n < 2 ^ 31
      → rop_zset_get_score h (some c) k m s ≡ done (pos n, s)
  unfolding rop_zset_get_score redis_command
  get_score_lem k m n s e small =
      rw (zscore_reply s k m (rw e (omega arith)), e) (rw (atoi-decimal n small) refl)

  increment_lem :
      (k m : Bytes) (s : Server)
      → next_score (score_at s k m) < 2 ^ 31
      → rop_zset_increment h (some c) k m s
        ≡ done (minus_one, (command c (zincrby_command k m) s).1)
  unfolding rop_zset_increment redis_command
  increment_lem k m s small =
      rw (zincrby_reply s k m (omega arith))
        (rw (not_ok _ (decimal-AreDigits (next_score (score_at s k m)))) refl)

  -- `rop_zset_increment` returns -1, as it does on an error, whenever the server answers as
  -- documented, and the score of the member has gone up by one, from nothing to 1:
  -- `rop_zset_get_score` then returns it. The score stays below 2 ^ 31.
  pub rop_zset_increment-get_score :
      (k m : Bytes) (s : Server)
      → next_score (score_at s k m) < 2 ^ 31
      → (t : Server) × (rop_zset_increment h (some c) k m s ≡ done (minus_one, t))
        × (rop_zset_get_score h (some c) k m t ≡ done (pos (next_score (score_at s k m)), t))
        × ((j q : Bytes)
            → score_at t j q
              ≡ (if eqb k j && eqb m q then some (next_score (score_at s k m)) else score_at s j q))
  rop_zset_increment-get_score k m s small = (
    (command c (zincrby_command k m) s).1,
    increment_lem k m s small,
    get_score_lem k m (next_score (score_at s k m)) _
        (zincrby_value s k m k m (omega arith) ∙ rw (eqb_refl k, eqb_refl m) refl) small,
    λ j q. zincrby_value s k m j q (omega arith),
  )
