-- ===== src/Tests/Asking.antt =====
-- request.go: a request that times out, and a request that collects two of three replies.
use imps.Base.{
  ℕ, String, ℤ, pos, negsuc, Bool, true, false, Option, none, some, List, [], ◌∷◌, ◌++◌, ◌≡◌, refl,
  length, if◌then◌else◌, pos_part,
}
use imps.Errors.{ImpError, request_timeout, Sentinel, deadline_exceeded, is_error}
use imps.Request.{
  Requests, RequestOptions, RequestManyOptions, with_request_timeout, with_request_many_max,
  with_request_many_window, configure, effective, is_nil_or, classify, request_single, Arrival,
  reply, window_over, Action, subscribed, published, unsubscribed, collect, request_many,
}
use imps.Request.Single.{last_positive, request_single-deadline}
use imps.Request.Many.{heard, ends, take, capped, all_heard, collect_lem}
use imps.Request.Calls.{request_many-unsubscribed}

program : Unit {0}
unfolding with_request_timeout with_request_many_max with_request_many_window configure effective
    is_nil_or classify request_single collect request_many last_positive heard ends take is_error
program = tt

abbrev fresh : Requests
fresh = record { calls = 0; many_calls = 0; unanswered = 0; timeouts = 0 }

-- Errors are sentinels here.
abbrev same : Sentinel → Sentinel → Bool
same deadline_exceeded deadline_exceeded = true
same _ _ = false

abbrev silent : ℤ → String → List ℕ → List ℕ × Option Sentinel
silent limit subject payload = ([], some deadline_exceeded)

abbrev quick : List (RequestOptions → RequestOptions)
quick = with_request_timeout (pos 5) ∷ with_request_timeout (negsuc 2) ∷ []

timed_out :
    request_single same silent none fresh (pos 9) "ask" [] quick
    ≡ (record fresh { calls = 1; timeouts = 1 }, [], some (request_timeout "ask" (pos 5)))
unfolding program
timed_out = refl

request_single-deadline_example :
    (out : ImpError Sentinel) × ((request_single same silent none fresh (pos 9) "ask" [] quick
        ≡ ((request_single same silent none fresh (pos 9) "ask" [] quick).0, [], some out))
      × (is_error same out deadline_exceeded ≡ true))
unfolding program
request_single-deadline_example =
    request_single-deadline same silent none fresh (pos 9) "ask" [] quick deadline_exceeded refl
      refl

abbrev replies : ℤ → List (Arrival Sentinel)
replies window =
    reply true []
    ∷ reply false (1 ∷ [])
    ∷ reply false (2 ∷ [])
    ∷ reply false (3 ∷ [])
    ∷ window_over
    ∷ []

abbrev two : List (RequestManyOptions → RequestManyOptions)
two = with_request_many_max (pos 2) ∷ []

asked : request_many same none (λ s p. none) replies fresh (pos 9) "ask" [] two ≡ (
  record fresh { many_calls = 1 },
  subscribed ∷ published "ask" [] ∷ unsubscribed ∷ [],
  some ((1 ∷ []) ∷ (2 ∷ []) ∷ [], none),
)
unfolding program
asked = refl

collect_lem_example : collect (pos 2) [] (replies (pos 9)) ≡ (
    if capped (pos 2) (length (heard (replies (pos 9))))
    then some (take (pos_part (pos 2)) (heard (replies (pos 9))), none)
    else all_heard (replies (pos 9)))
collect_lem_example = collect_lem (pos 2) (replies (pos 9))

request_many-unsubscribed_example :
    (before : List Action) × ((request_many same none
        (λ s p. none)
        replies
        fresh
        (pos 9)
        "ask"
        []
        two).1
      ≡ before ++ unsubscribed ∷ [])
unfolding program
request_many-unsubscribed_example =
    request_many-unsubscribed same none (λ s p. none) replies fresh (pos 9) "ask" [] two
      ((1 ∷ []) ∷ (2 ∷ []) ∷ [], none) refl refl
