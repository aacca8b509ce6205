-- ===== src/Workflow/Parallel/Turns.antt =====
-- The turns of the goroutines of a group end, if the semaphore has room for one of them.
use manglekit.Common.{
  ℕ, true, pos, zero, suc, ◌+◌, ◌*◌, ◌<◌, ◌≡◌, refl, String, Bool-cases, Option, some, List, [],
  ◌∷◌, Map, length, arith, inl, inr, ltb, ◌&&◌,
}
use manglekit.Workflow.{Value, Err, Workflow, Env}
use manglekit.Workflow.Parallel.Run.{
  Host, Sent, Ran, ran, prepend, take_at, send, send_all, outputs_of, errors_of, collect,
  execute_parallel_group,
}

length-take_at : (n : ℕ) (a : String) (xs : List String) → length (take_at n a xs).1 ≡ length xs
unfolding take_at
length-take_at zero a xs = refl
length-take_at (suc n) a [] = refl
length-take_at (suc n) a (b ∷ bs) = omega (arith, length-take_at n b bs)

module _ (env : Env) (host : Host env.World) where
  open env use {World}

  abbrev Ends : Option (Ran (List Sent × World)) → Type 0
  Ends o = (rs : List Sent) × (w : World) × (o ≡ some (ran (rs, w)))

  prepend-Ends : (r : Sent) (o : Option (Ran (List Sent × World))) → Ends o → Ends (prepend r o)
  unfolding prepend
  prepend-Ends r o (rs, w, e) = (r ∷ rs, w, rw e refl)

  send_all_total :
      (c fuel : ℕ) (wf : Workflow) (input : Value) (waiting holding : List String) (w : World)
      → length waiting * 2 + length holding < fuel
      → Ends (send_all env host (suc c) fuel wf input waiting holding w)
  unfolding send_all
  send_all_total c zero wf input waiting holding w lt = absurd (omega arith)
  send_all_total c (suc fuel) wf input [] [] w lt = ([], w, refl)
  send_all_total c (suc fuel) wf input (a ∷ xs) [] w lt =
      let n = host.pick (a ∷ xs) w in
      let (id, others) = take_at n a xs in
      let room : ltb 0 (suc c) ≡ true = ground arith in
      rw room
        (send_all_total c fuel wf input others (id ∷ []) w (omega (arith, length-take_at n a xs)))
  send_all_total c (suc fuel) wf input [] (b ∷ bs) w lt =
      let n = host.pick (b ∷ bs) w in
      let (id, others) = take_at n b bs in
      let (r, w1) = send env host wf input id w in
      prepend-Ends r _
        (send_all_total c fuel wf input [] others w1 (omega (arith, length-take_at n b bs)))
  send_all_total c (suc fuel) wf input (a ∷ xs) (b ∷ bs) w lt =
      let n = host.pick (a ∷ xs) w in
      let (id, others) = take_at n a xs in
      let m = host.pick (b ∷ bs) w in
      let (done, left) = take_at m b bs in
      let (r, w1) = send env host wf input done w in
      elim (Bool-cases (ltb (length (b ∷ bs)) (suc c) && host.enters (a ∷ xs) (b ∷ bs) w)) [
        | inl z ↦ rw z (
            send_all_total c fuel wf input others (id ∷ b ∷ bs) w
              (omega (arith, length-take_at n a xs)))
        | inr z ↦ rw z (
            prepend-Ends r _ (
              send_all_total c fuel wf input (a ∷ xs) left w1
                (omega (arith, length-take_at m b bs))))
      ]

  pub execute_parallel_group_total :
      (c : ℕ) (wf : Workflow) (ids : List String) (input : Value) (w : World)
      → (outputs : Map Value) × (errs : List (String × Err)) × (w' : World)
        × (execute_parallel_group env host (pos (suc c)) wf ids input w
            ≡ some (ran ((outputs, errs), w')))
  unfolding execute_parallel_group collect
  execute_parallel_group_total c wf ids input w =
      let (rs, w', e) = send_all_total c (length ids * 2 + 1) wf input ids [] w (omega arith) in
      (outputs_of rs [], errors_of rs, w', rw e refl)
