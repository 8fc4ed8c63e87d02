-- ===== src/ServiceClient/Answers.antt =====
-- Which callback an answer reaches, and how often.
use rws.Base.{
  ℕ, ◌≡◌, refl, ap, ◌∙◌, none, some, List, [], ◌∷◌, ◌++◌, ◌==◌, Option, if◌then◌else◌, arith,
  ==_refl,
}
use rws.Base.Maps.{find, insert, erase, find-insert, find-erase}
use rws.Base.Result.{Result, ok}
use rws.ServiceClient.{
  Middleware, Request, GenericClient, load_request, add_request, async_send_request, answer_request,
  handle_response,
}

module _ {World Serialized : Type 0} (middleware : Middleware World Serialized) where
  open middleware use {Message, rmw_serialize, rcl_send_request}

  erased : (n : ℕ) (m : List (ℕ × Request middleware)) → find n (erase n m) ≡ none
  erased n m = find-erase n n m ∙ rw (==_refl n) refl

  answered_none :
      (n : ℕ) (s : GenericClient middleware) (r : World × Option Serialized)
      → (answer_request middleware n none s r).0 ≡ s
  answered_none n s (w, none) = refl
  answered_none n s (w, some m) = refl

  ignored :
      (n : ℕ) (response : Message) (s : GenericClient middleware) (w : World)
      → find n s.pending_requests ≡ none
      → (handle_response middleware n response s w).0 ≡ s
  unfolding handle_response
  ignored n response s w e = rw e (answered_none n s (rmw_serialize s.type_support response w))

  -- What an answer to a pending request does.
  answered :
      (n : ℕ) (response : Message) (s : GenericClient middleware) (v v' : World)
      (r : Request middleware) (m : Serialized)
      → find n s.pending_requests ≡ some r
      → rmw_serialize s.type_support response v ≡ (v', some m)
      → handle_response middleware n response s v ≡ (
        record s {
          pending_requests = erase n s.pending_requests;
          values = s.values ++ (r.promise, m) ∷ [];
        },
        (r.callback m v').0,
        (r.callback m v').1,
      )
  unfolding handle_response
  answered n response s v v' r m e serial = rw (e, serial, handle_response) refl

  gone_after :
      (n : ℕ) (o : Option (Request middleware)) (s : GenericClient middleware) (w : World)
      (m : Serialized)
      → find n s.pending_requests ≡ o
      → find n (answer_request middleware n o s (w, some m)).0.pending_requests ≡ none
  gone_after n none s w m e = e
  gone_after n (some r) s w m e = erased n s.pending_requests

  -- Once an answer that can be serialized has been handled, another answer with the same number
  -- completes no future and leaves the table as it is.
  pub handle_response-handle_response :
      (n : ℕ) (first second : Message) (s : GenericClient middleware) (w w' v : World)
      (m : Serialized)
      → rmw_serialize s.type_support first w ≡ (w', some m)
      → (handle_response middleware n second (handle_response middleware n first s w).0 v).0
        ≡ (handle_response middleware n first s w).0
  unfolding handle_response
  handle_response-handle_response n first second s w w' v m e =
      ignored n second (handle_response middleware n first s w).0 v (
        ap
          (λ r.
            find n (answer_request middleware n (find n s.pending_requests) s r).0.pending_requests)
          e
        ∙ gone_after n (find n s.pending_requests) s w' m refl)

  pub sent_lem :
      (request : Serialized) (cb : Serialized → World → World × Result (Unit {0}))
      (s : GenericClient middleware) (w w' : World) (buf : Message) (n : ℕ)
      → load_request middleware s.type_support request ≡ ok buf
      → rcl_send_request s.type_support buf w ≡ (w', ok n)
      → async_send_request middleware request cb s w ≡ add_request middleware cb s (w', ok n)
  unfolding async_send_request
  sent_lem request cb s w w' buf n loads sends = rw (loads, sends, async_send_request) refl

  -- A request, and the answer to it.
  abbrev pub exchange :
      Serialized
      → (Serialized → World → World × Result (Unit {0}))
      → GenericClient middleware
      → World
      → ℕ
      → Message
      → World
      → GenericClient middleware × World × Result (Unit {0})
  exchange request cb s w n response v =
      handle_response middleware n response (async_send_request middleware request cb s w).0 v

  -- A request that is sent under a number, and the answer with this number, if it can be
  -- serialized: the future of the request gets the answer, the callback of the request is called
  -- with it, and what it returns or throws is what handle_response does; the table is that from
  -- before the request without the number.
  pub handle_response-async_send_request :
      (request : Serialized) (cb : Serialized → World → World × Result (Unit {0}))
      (s : GenericClient middleware) (w w' v v' : World) (buf : Message) (n : ℕ)
      (response : Message) (m : Serialized)
      → load_request middleware s.type_support request ≡ ok buf
      → rcl_send_request s.type_support buf w ≡ (w', ok n)
      → rmw_serialize s.type_support response v ≡ (v', some m)
      → ((async_send_request middleware request cb s w).2 ≡ ok s.next_promise)
        × ((exchange request cb s w n response v).1 ≡ (cb m v').0)
        × ((exchange request cb s w n response v).2 ≡ (cb m v').1)
        × ((exchange request cb s w n response v).0.values ≡ s.values ++ (s.next_promise, m) ∷ [])
        × ((j : ℕ)
            → find j (exchange request cb s w n response v).0.pending_requests
              ≡ (if n == j then none else find j s.pending_requests))
  handle_response-async_send_request request cb s w w' v v' buf n response m loads sends serial =
      let made : Request middleware = record { promise = s.next_promise; callback = cb } in
      let sent : GenericClient middleware × World × Result ℕ =
        add_request middleware cb s (w', ok n) in
      let found : find n (insert n made s.pending_requests) ≡ some made =
        find-insert n n made s.pending_requests ∙ rw (==_refl n) refl in
      rw (sent_lem request cb s w w' buf n loads sends) (
        rw (answered n response sent.0 v v' made m found serial) (
          refl,
          refl,
          refl,
          refl,
          λ j. ground (
            arith,
            find-erase n j (insert n made s.pending_requests),
            find-insert n j made s.pending_requests,
          ),
        ))
