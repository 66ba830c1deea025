-- ===== src/Target/Bridge/Stale.antt =====
-- A message that a request failed with keeps the failure for all later requests.
use mathlib.Core.Path.{subst}
use go_ublksrv.Base.{
  ℕ, ◌≤◌, ◌≡◌, ◌∙◌, ◌||◌, true, refl, sym, List, [], ◌∷◌, ◌++◌, Option, none, some, ◌==◌, arith,
}
use go_ublksrv.Word.{minus}
use go_ublksrv.Queue.Types.{IoDesc, AsyncCall}
use go_ublksrv.Target.Types.{Request, capacity, minus_one}
use go_ublksrv.Target.Handler.{IoHandler}
use go_ublksrv.Target.Bridge.{
  job_of, no_device, no_message, started, fill_request, on_request_async, answers, dies, waits,
  answer_size, answer_request, eio,
}
use go_ublksrv.Target.Bridge.Answers.{IsIdle, fails, stored, answer_request-answers}

-- A call with the bytes at `iov_base` and the descriptor of its tag.
pub record Incoming : Type 0 where
  pub call : AsyncCall
  pub buffer : List ℕ
  pub iod : IoDesc

module _ {S : Type 0} ⦃h : IoHandler S⦄ where
  -- The completions of requests that one message serves, one after another; `none` where a goroutine
  -- panics or waits.
  unfoldable pub serve_all : List Incoming → Request → S → Option (List (ℕ × ℕ))
  unfolding answer_request
  serve_all [] msg s = some []
  serve_all (r ∷ rs) msg s = elim (on_request_async true (msg ∷ []) r.call r.buffer) [
    | no_device ↦ none
    | no_message ↦ none
    | started job msg_chan ↦ elim (answer_request job r.iod s) [
      | dies ↦ none
      | waits ↦ none
      | answers completions buffer msg' s' ↦ elim (serve_all rs msg' s') [
        | none ↦ none
        | some more ↦ some (completions ++ more)
      ]
    ]
  ]

-- Every request twice, first with -EIO.
abbrev pub twice : List Incoming → List (ℕ × ℕ)
twice [] = []
twice (r ∷ rs) = (r.call.tag, minus eio) ∷ (r.call.tag, answer_size r.call.op_type r.iod) ∷ twice rs

-- Each request fits into this much room.
abbrev pub Fit : (room : ℕ) → List Incoming → Type 0
Fit room [] = Unit {0}
Fit room (r ∷ rs) = (r.call.req.size ≤ room) × Fit room rs

module _ {S : Type 0} ⦃h : IoHandler S⦄ where
  serve_all-more :
      (r : Incoming) (rs : List Incoming) (msg msg' : Request) (s s' : S) (buffer : List ℕ)
      (now more : List (ℕ × ℕ))
      → answer_request (job_of r.call r.buffer msg) r.iod s ≡ answers now buffer msg' s'
      → serve_all rs msg' s' ≡ some more
      → serve_all (r ∷ rs) msg s ≡ some (now ++ more)
  unfolding serve_all on_request_async
  serve_all-more r rs msg msg' s s' buffer now more run rest = ground arith

  -- Once a request has failed with a message, every later request that the message serves is
  -- completed twice, first with -EIO and then with its size, whatever its handler answers. The
  -- message is not waited for, and has room for each request.
  pub serve_all-twice :
      (rs : List Incoming) (msg : Request) (s : S)
      → msg.result ≡ minus_one
      → msg.complete ≡ 0
      → Fit (capacity msg.rdata) rs
      → serve_all rs msg s ≡ some (twice rs)
  unfolding serve_all fill_request
  serve_all-twice [] msg s failed empty fit = refl
  serve_all-twice (r ∷ rs) msg s failed empty fit =
      let job = job_of r.call r.buffer msg in
      let idle : IsIdle job.msg = record { empty = empty; room = ground (arith, fit) } in
      let (msg', run, empty', room', still) = answer_request-answers job r.iod s idle in
      let before : (fails job.msg s || (job.msg.result == minus_one)) ≡ true =
        ground (arith, failed) in
      let failed' : msg'.result ≡ minus_one = ground (arith, still, before) in
      let fit' = subst (λ n. Fit n rs) (sym room') fit.1 in
      let rest = serve_all-twice rs msg' (stored job.msg s) failed' empty' fit' in
      serve_all-more r rs msg msg' s (stored job.msg s) _ _ (twice rs) run rest ∙ rw before refl
