-- ===== src/Dispatch/Fallback.antt =====
-- What a dispatch does with the back pressure `fallback`.
use mathlib.Core.Path.{subst}
use logateway.Prelude.{
  Bool-cases, ltb, length, ◌∙◌, ap, ◌+◌, ◌≡◌, ◌≢◌, ◌⊎◌, inl, inr, refl, sym, arith, Bool, true,
  false, Option, none, some, List, [], ◌∷◌, ◌++◌, All,
}
use logateway.Prelude.Bytes.{Bytes, beq, beq_refl}
use logateway.Prelude.Maps.{lookup, put, lookup-put}
use logateway.Message.{Message}
use logateway.Config.Manager.{get_project}
use logateway.Pipeline.Processors
use logateway.Pipeline.Processors.{Json}
use logateway.Sink.Pool
use logateway.Sink.Pool.{
  Pool, reject_full, try_enqueue, handle_rejected, Submitted, enqueued, rejected, released, waits,
  fallback, stored, channel_full, submit,
}
use logateway.Dispatch.{
  ok, Dispatcher, copy_message, error_of, await, submit_one, after_submit, submit_all,
  submit_project, run_pipeline, dispatch, dispatch_impl, is_unset,
}

module _ {W : Type 0} where
  -- the pool is open and falls back to the WAL
  abbrev pub FallsBack : Pool W → Type 0
  FallsBack p = (p.closed ≡ false) × (p.backpressure ≡ fallback)

module _ {W : Type 0} (write_message : Message → W → W × Bool) where
  -- What one pool has done with a message, between the writer's states `w` and `w'`: a copy stands
  -- at the end of its channel and nothing is written; or the copy has been written to the WAL,
  -- once, and is counted there, and the channel is as it was.
  abbrev pub Took : Message → Pool W → Pool W → W → W → Type 0
  Took msg p p' w w' =
      (p'.queue ≡ p.queue ++ copy_message msg ∷ [])
        × (p'.wal_fallbacks ≡ p.wal_fallbacks)
        × (w' ≡ w)
      ⊎ (p'.queue ≡ p.queue)
        × (p'.wal_fallbacks ≡ p.wal_fallbacks + 1)
        × (w' ≡ (write_message (copy_message msg) w).0)

  -- Each pool has taken the message, one after the other on the one writer, and still is open and
  -- falls back.
  abbrev pub AllTook : Message → List (Pool W) → List (Pool W) → W → W → Type 0
  AllTook msg [] [] w w'' = w'' ≡ w
  AllTook msg (p ∷ ps) (p' ∷ ps') w w'' =
      (w' : W) × Took msg p p' w w' × (FallsBack p' × AllTook msg ps ps' w' w'')
  AllTook msg _ _ w w'' = ⊥

  -- Every pool of the project has taken the message, and the pools of other projects are as they
  -- were.
  abbrev pub Lands : Bytes → Message → List (Pool W) → Dispatcher W → Dispatcher W → Type 0
  Lands project msg ps d d' =
      (m : List (Bytes × List (Pool W))) × (m' : List (Bytes × List (Pool W))) × ((d.pools ≡ some m)
        × (d'.pools ≡ some m')
        × ((w : W) × (w' : W) × (d.wal ≡ some w)
            × (d'.wal ≡ some w')
            × ((ps' : List (Pool W)) × (lookup project m' ≡ some ps') × AllTook msg ps ps' w w'))
        × ((k : Bytes) → beq project k ≡ false → lookup k m' ≡ lookup k m))

module _ {W : Type 0} (write_message : Message → W → W × Bool)
    (works : (msg : Message) (w : W) → (write_message msg w).1 ≡ true) where
  submit-Took :
      (mw : Pool W → Pool W) (msg : Message) (p : Pool W) (w : W)
      → FallsBack p
      → let r = submit_one write_message false mw (copy_message msg) (record p { wal = some w }) in
        ((w' : W) × (r.0.wal ≡ some w') × Took write_message msg p r.0 w w')
        × FallsBack r.0
        × ((r.1 ≡ enqueued) ⊎ (r.1 ≡ rejected (stored channel_full) none))
  unfolding submit_one await submit reject_full try_enqueue handle_rejected
  submit-Took mw msg p w falls =
      let q = record p { wal = some w } in
      let r = submit_one write_message false mw (copy_message msg) q in
      elim (Bool-cases (ltb (length p.queue) p.capacity)) [
        | inl room ↦
            let e : r ≡ (record q { queue = p.queue ++ copy_message msg ∷ [] }, enqueued) =
              ground (arith, room) in
            subst
              (λ (r : Pool W × Submitted).
                ((w' : W) × (r.0.wal ≡ some w') × Took write_message msg p r.0 w w')
                × FallsBack r.0
                × ((r.1 ≡ enqueued) ⊎ (r.1 ≡ rejected (stored channel_full) none)))
              (sym e) ((w, refl, inl (refl, refl, refl)), falls, inl refl)
        | inr full ↦
            let w' = (write_message (copy_message msg) w).0 in
            let e : r ≡ (
              record q { wal = some w'; wal_fallbacks = p.wal_fallbacks + 1 },
              rejected (stored channel_full) none,
            ) =
              ground (arith, full, works (copy_message msg) w) in
            subst
              (λ (r : Pool W × Submitted).
                ((w' : W) × (r.0.wal ≡ some w') × Took write_message msg p r.0 w w')
                × FallsBack r.0
                × ((r.1 ≡ enqueued) ⊎ (r.1 ≡ rejected (stored channel_full) none)))
              (sym e) ((w', refl, inr (refl, refl, refl)), falls, inr refl)
      ]

  no_error :
      (s : Submitted)
      → (s ≡ enqueued) ⊎ (s ≡ rejected (stored channel_full) none)
      → error_of s ≡ none
  unfolding error_of
  no_error s (inl e) = rw e refl
  no_error s (inr e) = rw e refl

  go_on :
      (r : Pool W × Submitted) (ps : List (Pool W))
      (next : Option W → List (Pool W) × Option W × Option Pool.Error)
      → error_of r.1 ≡ none
      → let n = next r.0.wal in after_submit write_message r ps next ≡ (r.0 ∷ n.0, n.1, n.2)
  unfolding after_submit
  go_on r ps next fine = rw (fine, after_submit) refl

  -- what the loop leaves behind
  abbrev Delivered :
      Message → List (Pool W) → W → List (Pool W) × Option W × Option Pool.Error → Type 0
  Delivered msg ps w r =
      ((w' : W) × (r.1 ≡ some w') × AllTook write_message msg ps r.0 w w') × (r.2 ≡ none)

  submit_all-Delivered :
      (mw : Pool W → Pool W) (msg : Message) (ps : List (Pool W)) (w : W)
      → All FallsBack ps
      → Delivered msg ps w (submit_all write_message false mw msg ps (some w))
  unfolding submit_all
  submit_all-Delivered mw msg [] w falls = ((w, refl, refl), refl)
  submit_all-Delivered mw msg (p ∷ ps) w falls =
      let r = submit_one write_message false mw (copy_message msg) (record p { wal = some w }) in
      let go = submit_all write_message false mw msg ps in
      let ((w', left, took), still, how) = submit-Took mw msg p w falls.0 in
      let ((w'', last, rest), clean) = submit_all-Delivered mw msg ps w' falls.1 in
      let e : after_submit write_message r ps go
          ≡ (r.0 ∷ (go (some w')).0, (go (some w')).1, (go (some w')).2) =
        go_on r ps go (no_error r.1 how)
        ∙ ap (λ (o : Option W). (r.0 ∷ (go o).0, (go o).1, (go o).2)) left in
      subst (Delivered msg (p ∷ ps) w) (sym e) ((w'', last, (w', took, (still, rest))), clean)

  module _ (json : Json) where
    submit_project-Lands :
        (mw : Pool W → Pool W) (project : Bytes) (msg : Message) (ps : List (Pool W))
        (m : List (Bytes × List (Pool W))) (d : Dispatcher W) (w : W)
        → All FallsBack ps
        → d.pools ≡ some m
        → d.wal ≡ some w
        → let r = submit_project write_message false mw msg project ps m d in
          (r.1 ≡ ok) × Lands write_message project msg ps d r.0
    unfolding submit_project
    submit_project-Lands mw project msg ps m d w falls has writer =
        let r = submit_all write_message false mw msg ps d.wal in
        let done : Delivered msg ps w r =
          subst (λ o. Delivered msg ps w (submit_all write_message false mw msg ps o)) (sym writer)
            (submit_all-Delivered mw msg ps w falls) in
        let (w', last, took) = done.0 in
        (
          rw (done.1, submit_project) refl,
          (
            m,
            put project r.0 m,
            (
              has,
              refl,
              (
                w,
                w',
                writer,
                last,
                (r.0, ground (arith, lookup-put project project r.0 m, beq_refl project), took),
              ),
              λ k other. ground (arith, lookup-put project k r.0 m, other),
            ),
          ),
        )

    named : (s : Bytes) → s ≢ [] → is_unset s ≡ false
    unfolding is_unset
    named [] h = absurd (h refl)
    named (c ∷ s) h = refl

    dispatch-submit_project :
        (mw : Pool W → Pool W) (msg msg' : Message) (d : Dispatcher W)
        (m : List (Bytes × List (Pool W))) (ps : List (Pool W))
        → is_unset msg.project ≡ false
        → d.pools ≡ some m
        → lookup msg.project m ≡ some ps
        → ps ≢ []
        → run_pipeline json false (get_project d.cfg msg.project) msg ≡ Processors.done msg'
        → dispatch write_message json mw msg d
          ≡ submit_project write_message false mw msg' msg.project ps m d
    unfolding dispatch dispatch_impl
    dispatch-submit_project mw msg msg' d m [] set has here some_pool piped =
        absurd (some_pool refl)
    dispatch-submit_project mw msg msg' d m (p ∷ ps) set has here some_pool piped = ground arith

    -- With the back pressure `fallback`, a WAL writer that takes every entry, and open pools, a
    -- dispatch of a message of a project with pools, which the project's pipeline turns into a
    -- message, loses nothing: it returns nil, and every pool of the project has either a copy
    -- of that message at the end of its channel or has given the copy to the writer, and is
    -- ready for the next dispatch; the pools of other projects are as they were.
    pub dispatch-Lands :
        (mw : Pool W → Pool W) (msg msg' : Message) (d : Dispatcher W)
        (m : List (Bytes × List (Pool W))) (ps : List (Pool W)) (w : W)
        → msg.project ≢ []
        → d.pools ≡ some m
        → d.wal ≡ some w
        → lookup msg.project m ≡ some ps
        → ps ≢ []
        → All FallsBack ps
        → run_pipeline json false (get_project d.cfg msg.project) msg ≡ Processors.done msg'
        → let r = dispatch write_message json mw msg d in
          (r.1 ≡ ok) × Lands write_message msg.project msg' ps d r.0
    dispatch-Lands mw msg msg' d m ps w set has writer here some_pool falls piped =
        rw
          (dispatch-submit_project mw msg msg' d m ps (named msg.project set) has here some_pool
            piped)
          (submit_project-Lands mw msg.project msg' ps m d w falls has writer)
