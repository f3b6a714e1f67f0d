-- ===== src/Redis/Pipeline.antt =====
-- What the pipelined calls do with any server: they are the append loop over all commands, followed
-- by one reply for each.
use cloud_disk_server.Prelude.{ℕ, zero, suc, Bool, true, false, some, List, [], ◌∷◌, ◌<◌}
use cloud_disk_server.Prelude.{
  ◌≡◌, ◌↔◌, ◌⊎◌, inl, inr, refl, sym, ap, ◌∙◌, arith, length, Bool-cases,
}
use cloud_disk_server.Prelude.Int.{ℤ, pos}
use cloud_disk_server.Prelude.Outcome.{done, fault}
use cloud_disk_server.Redis.Hiredis.{Hiredis, Command, minus_one}
use cloud_disk_server.Redis.Hiredis.{redis_append_command, redis_get_reply}
use cloud_disk_server.Redis.Keys.{append_loop, commit_loop, pipeline}

module _ (h : Hiredis) (c : h.Context) where
  open h use {Server, append_command, get_reply}

  -- The commands are all taken, in order, and the last leaves the server in the state `t`.
  abbrev pub Taken : Server → List Command → Server → Type 0
  Taken s [] t = s ≡ t
  Taken s (cmd ∷ cmds) t =
      ((append_command c cmd s).0 ≡ true) × Taken (append_command c cmd s).1 cmds t

  -- `n` replies come in, and the last leaves the server in the state `t`.
  abbrev pub Replied : Server → ℕ → Server → Type 0
  Replied s zero t = s ≡ t
  Replied s (suc n) t = ((get_reply c s).0 ≡ true) × Replied (get_reply c s).1 n t

  append_loop-zero_iff :
      (cmds : List Command) (s t : Server)
      → (append_loop h (some c) cmds s ≡ done (pos 0, t)) ↔ Taken s cmds t
  unfolding append_loop redis_append_command
  append_loop-zero_iff [] s t = ground arith
  append_loop-zero_iff (cmd ∷ cmds) s t =
      ground (arith, append_loop-zero_iff cmds (append_command c cmd s).1 t)

  commit_loop-zero_iff :
      (freed : Bool) (cmds : List Command) (s t : Server)
      → (commit_loop h (some c) freed cmds s ≡ done (pos 0, t)) ↔ Replied s (length cmds) t
  unfolding commit_loop redis_get_reply
  commit_loop-zero_iff freed [] s t = ground arith
  commit_loop-zero_iff true (cmd ∷ cmds) s t =
      ground (arith, commit_loop-zero_iff true cmds (get_reply c s).1 t)
  commit_loop-zero_iff false (cmd ∷ cmds) s t =
      ground (arith, commit_loop-zero_iff true cmds (get_reply c s).1 t)

  append_loop_ends :
      (cmds : List Command) (s : Server)
      → (r : ℤ) × (t : Server) × (append_loop h (some c) cmds s ≡ done (r, t))
        × ((r ≡ pos 0) ⊎ (r ≡ minus_one))
  unfolding append_loop redis_append_command
  append_loop_ends [] s = (pos 0, s, refl, inl refl)
  append_loop_ends (cmd ∷ cmds) s = elim (Bool-cases (append_command c cmd s).0) [
    | inl e ↦ rw e (append_loop_ends cmds (append_command c cmd s).1)
    | inr e ↦ (minus_one, (append_command c cmd s).1, rw e, inr refl)
  ]

  -- A reply comes in, then others or none, and then one fails although more commands wait.
  abbrev pub CutShort : Server → ℕ → Type 0
  CutShort s n =
      (k : ℕ) × (u : Server) × (0 < k) × (k < n) × Replied s k u × ((get_reply c u).0 ≡ false)

  abbrev FailsAt : Bool → Server → ℕ → Type 0
  FailsAt freed s n =
      (k : ℕ) × (u : Server) × ((freed ≡ true) ⊎ (0 < k))
      × (k < n)
      × Replied s k u
      × ((get_reply c u).0 ≡ false)

  commit_loop_faults :
      (freed : Bool) (cmds : List Command) (s : Server)
      → commit_loop h (some c) freed cmds s ≡ fault
      → FailsAt freed s (length cmds)
  unfolding commit_loop redis_get_reply
  commit_loop_faults freed [] s p = absurd (cc p)
  commit_loop_faults freed (cmd ∷ cmds) s p = elim (Bool-cases (get_reply c s).0) [
    | inl e ↦
        let (k, u, some_freed, below, replied, failed) =
          commit_loop_faults true cmds (get_reply c s).1 (rw e at p) in
        (suc k, u, inr (omega arith), omega arith, (e, replied), failed)
    | inr e ↦ elim (Bool-cases freed) [
      | inl was ↦ (zero, s, inl was, omega arith, refl, e)
      | inr first ↦ absurd (cc (p, e, first))
    ]
  ]

  faults_commit_loop :
      (freed : Bool) (cmds : List Command) (s : Server) (k : ℕ) (u : Server)
      → (freed ≡ true) ⊎ (0 < k)
      → k < length cmds
      → Replied s k u
      → (get_reply c u).0 ≡ false
      → commit_loop h (some c) freed cmds s ≡ fault
  unfolding commit_loop redis_get_reply
  faults_commit_loop freed [] s k u before below replied failed = absurd (omega arith)
  faults_commit_loop freed (cmd ∷ cmds) s zero u before below replied failed = elim before [
    | inl was ↦ rw (ap (λ (v : Server). (get_reply c v).0) replied ∙ failed, was) refl
    | inr positive ↦ absurd (omega arith)
  ]
  faults_commit_loop freed (cmd ∷ cmds) s (suc k) u before below replied failed =
      rw (replied.0) (
        faults_commit_loop true cmds (get_reply c s).1 k u (inl refl) (omega arith) replied.1
          failed)

  pipeline_taken :
      (cmds : List Command) (s t : Server)
      → append_loop h (some c) cmds s ≡ done (pos 0, t)
      → pipeline h (some c) cmds s ≡ commit_loop h (some c) false cmds t
  unfolding pipeline
  pipeline_taken cmds s t e = ground arith

  pipeline_refused :
      (cmds : List Command) (s t : Server)
      → append_loop h (some c) cmds s ≡ done (minus_one, t)
      → pipeline h (some c) cmds s ≡ done (minus_one, t)
  unfolding pipeline
  pipeline_refused cmds s t e = ground arith

  -- A pipelined call returns 0 exactly when every command was taken in order and then one reply for
  -- each came in, and the server is in the state that the last reply left.
  pub pipeline-zero_iff :
      (cmds : List Command) (s u : Server)
      → (pipeline h (some c) cmds s ≡ done (pos 0, u))
        ↔ ((t : Server) × Taken s cmds t × Replied t (length cmds) u)
  pipeline-zero_iff cmds s u = (there, back)
    where
      there :
          pipeline h (some c) cmds s ≡ done (pos 0, u)
          → (t : Server) × Taken s cmds t × Replied t (length cmds) u
      there p =
          let (r, t, e, z) = append_loop_ends cmds s in
          elim z [
            | inl zero_result ↦ (
              t,
              (append_loop-zero_iff cmds s t).0 (rw zero_result at e),
              (commit_loop-zero_iff false cmds t u).0
                  (sym (pipeline_taken cmds s t (rw zero_result at e)) ∙ p),
            )
            | inr failed ↦ cc (p, pipeline_refused cmds s t (rw failed at e))
          ]

      back :
          ((t : Server) × Taken s cmds t × Replied t (length cmds) u)
          → pipeline h (some c) cmds s ≡ done (pos 0, u)
      back (t, taken, replied) =
          pipeline_taken cmds s t ((append_loop-zero_iff cmds s t).1 taken)
          ∙ (commit_loop-zero_iff false cmds t u).1 replied

  -- A pipelined call frees a reply a second time exactly when every command was taken in order, a
  -- first reply came in, and a later one failed while commands waited for theirs.
  pub pipeline-fault_iff :
      (cmds : List Command) (s : Server)
      → (pipeline h (some c) cmds s ≡ fault)
        ↔ ((t : Server) × Taken s cmds t × CutShort t (length cmds))
  pipeline-fault_iff cmds s = (there, back)
    where
      there :
          pipeline h (some c) cmds s ≡ fault
          → (t : Server) × Taken s cmds t × CutShort t (length cmds)
      there p =
          let (r, t, e, z) = append_loop_ends cmds s in
          elim z [
            | inl zero_result ↦
                let (k, u, before, below, replied, failed) =
                  commit_loop_faults false cmds t
                    (sym (pipeline_taken cmds s t (rw zero_result at e)) ∙ p) in
                (
                  t,
                  (append_loop-zero_iff cmds s t).0 (rw zero_result at e),
                  (
                    k,
                    u,
                    elim before [ inl f ↦ cc f | inr positive ↦ positive ],
                    below,
                    replied,
                    failed,
                  ),
                )
            | inr failed ↦ cc (p, pipeline_refused cmds s t (rw failed at e))
          ]

      back :
          ((t : Server) × Taken s cmds t × CutShort t (length cmds))
          → pipeline h (some c) cmds s ≡ fault
      back (t, taken, (k, u, positive, below, replied, failed)) =
          pipeline_taken cmds s t ((append_loop-zero_iff cmds s t).1 taken)
          ∙ faults_commit_loop false cmds t k u (inr positive) below replied failed
