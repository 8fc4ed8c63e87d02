-- ===== src/Handler/Publishers/Advertised.antt =====
-- The topics that a client advertises: each has a type and a publisher, until it is unadvertised.
use rws.Base.{
  ◌≡◌, refl, sym, ap, ◌∙◌, Bool, true, false, not, Option, none, some, List, [], ℕ, if◌then◌else◌,
  Option-cases, inl, inr,
}
use rws.Base.Result.{Result, ok, err, fault}
use rws.Base.Text.{Text, bytes, text_eq, text_eq→eq}
use rws.Base.Keys.{find_key, erase_key, insert_key, find_key-insert_key, find_key-erase_key}
use rws.Cdr.Host.{Host}
use rws.Ros.{Ros}
use rws.Connector.{Connector}
use rws.Json.{Json}
use rws.Handler.{ClientHandler, Reached, attempt, if_found, has_text}
use rws.Handler.Publishers.{
  Publishing, touched, at_key, advertised, advertise_type, client_advertise_topic,
  unadvertise_topic, published, call_publisher, message_bytes, publish_known, publish_to_topic,
}

module _ (ros : Ros) (json : Json) (Message : Type 0) where
  open ros use {World, Publisher}
  open json use {Value, contains, at, get_string}

  -- The entries of a topic that is advertised.
  abbrev pub IsThere : ClientHandler ros json Message → Text → Type 0
  IsThere h topic =
      ((type : Text) × (find_key topic h.publisher_type ≡ some type))
      × ((p : Publisher) × (find_key topic h.publisher_cb ≡ some (some p)))

  abbrev pub IsReady : ClientHandler ros json Message → Type 0
  IsReady h = (topic : Text) (id : ℕ) → find_key topic h.publishers ≡ some id → IsThere h topic

  touched_there :
      {V : Type 0} (k : Text) (v u : V) (m : List (Text × V))
      → find_key k m ≡ some u
      → touched k v m ≡ m
  touched_there k v u m e = rw (e, touched) refl

  find_key-touched :
      {V : Type 0} (k l : Text) (v u : V) (m : List (Text × V))
      → find_key l m ≡ some u
      → find_key l (touched k v m) ≡ some u
  find_key-touched k l v u m e = elim (Option-cases (find_key k m)) [
    | inl absent ↦
        rw (absent, touched) (find_key-insert_key k l v m ∙ by_name absent (text_eq k l) refl)
    | inr (x, there) ↦ rw (there, touched) e
  ]
    where
      by_name :
          find_key k m ≡ none
          → (b : Bool) → text_eq k l ≡ b
          → (if b then some v else find_key l m) ≡ some u
      by_name absent true same =
          let alike : find_key k m ≡ find_key l m = ap (λ i. find_key i m) (text_eq→eq k l same) in
          let no : none ≡ some u = sym absent ∙ alike ∙ e in cc
      by_name absent false apart = e

  advertised-IsReady :
      (h : ClientHandler ros json Message) (topic type : Text) (response : Value)
      (r : Connector ros Message × World × Result (ℕ × Publisher))
      → IsReady h
      → IsReady
          (advertised ros json Message
            (record h { publisher_cb = touched topic none h.publisher_cb })
            topic
            type
            response
            r).0
  advertised-IsReady h topic type response (c, w, ok (id, p)) ready other i found =
      entries (text_eq topic other) (find_key-insert_key topic other id h.publishers)
        (find_key-insert_key topic other type h.publisher_type)
        (find_key-insert_key topic other (some p) cb)
    where
      cb : List (Text × Option Publisher)
      cb = touched topic none h.publisher_cb

      entries :
          (b : Bool)
          → find_key other (insert_key topic id h.publishers)
            ≡ (if b then some id else find_key other h.publishers)
          → find_key other (insert_key topic type h.publisher_type)
            ≡ (if b then some type else find_key other h.publisher_type)
          → find_key other (insert_key topic (some p) cb)
            ≡ (if b then some (some p) else find_key other cb)
          → ((type' : Text) × (find_key other (insert_key topic type h.publisher_type)
                ≡ some type'))
            × ((p' : Publisher) × (find_key other (insert_key topic (some p) cb) ≡ some (some p')))
      entries true e e' e'' = ((type, e'), (p, e''))
      entries false e e' e'' =
          let ((t, typed), (q, there)) = ready other i (sym e ∙ found) in
          (
            (t, e' ∙ typed),
            (q, e'' ∙ find_key-touched topic other none (some q) h.publisher_cb there),
          )
  advertised-IsReady h topic type response (c, w, err e) ready other i found =
      let (t, (p, there)) = ready other i found in
      (t, (p, find_key-touched topic other none (some p) h.publisher_cb there))
  advertised-IsReady h topic type response (c, w, fault) ready other i found =
      let (t, (p, there)) = ready other i found in
      (t, (p, find_key-touched topic other none (some p) h.publisher_cb there))

  module _ (P : ClientHandler ros json Message → Type 0) where
    pub if-keeps :
        (b : Bool) (x y : Reached ros json Message) → P x.0 → P y.0 → P (if b then x else y).0
    if-keeps true x y p q = p
    if-keeps false x y p q = q

    pub attempt-keeps :
        {A : Type 0} (h : ClientHandler ros json Message) (c : Connector ros Message) (w : World)
        (r : Result A) (next : A → Reached ros json Message)
        → P h
        → ((a : A) → P (next a).0)
        → P (attempt ros json Message h c w r next).0
    attempt-keeps h c w (ok a) next p q = q a
    attempt-keeps h c w (err e) next p q = p
    attempt-keeps h c w fault next p q = p

    pub if_found-keeps :
        {V : Type 0} (o : Option V) (next : V → Reached ros json Message)
        (missing : Reached ros json Message)
        → ((v : V) → o ≡ some v → P (next v).0)
        → P missing.0
        → P (if_found ros json Message o next missing).0
    if_found-keeps none next missing p q = q
    if_found-keeps (some v) next missing p q = p v refl

  advertise_type-IsReady :
      (topic type : Text) (msg response : Value) (h : ClientHandler ros json Message)
      (c : Connector ros Message) (w : World)
      → IsReady h
      → IsReady (advertise_type ros json Message topic type msg response h c w).0
  unfolding advertise_type
  advertise_type-IsReady topic type msg response h c w ready =
      if_found-keeps IsReady (find_key topic h.publishers) _ _ (λ id e. ready)
        (advertised-IsReady h topic type response _ ready)

  erased-IsReady :
      (topic : Text) (h : ClientHandler ros json Message)
      → IsReady h
      → IsReady (record h {
        publishers = erase_key topic h.publishers;
        publisher_type = erase_key topic h.publisher_type;
        publisher_cb = erase_key topic h.publisher_cb;
      })
  erased-IsReady topic h ready other i found =
      entries (text_eq topic other) (find_key-erase_key topic other h.publishers)
        (find_key-erase_key topic other h.publisher_type)
        (find_key-erase_key topic other h.publisher_cb)
    where
      entries :
          (b : Bool)
          → find_key other (erase_key topic h.publishers)
            ≡ (if b then none else find_key other h.publishers)
          → find_key other (erase_key topic h.publisher_type)
            ≡ (if b then none else find_key other h.publisher_type)
          → find_key other (erase_key topic h.publisher_cb)
            ≡ (if b then none else find_key other h.publisher_cb)
          → ((type : Text) × (find_key other (erase_key topic h.publisher_type) ≡ some type))
            × ((p : Publisher) × (find_key other (erase_key topic h.publisher_cb) ≡ some (some p)))
      entries true e e' e'' = let no : none ≡ some i = sym e ∙ found in cc
      entries false e e' e'' =
          let ((t, typed), (q, there)) = ready other i (sym e ∙ found) in
          ((t, e' ∙ typed), (q, e'' ∙ there))

  published-same :
      (h : ClientHandler ros json Message) (c : Connector ros Message) (response : Value)
      (r : World × Result (Unit {0}))
      → (published ros json Message h c response r).0 ≡ h
  published-same h c response (w, ok done) = refl
  published-same h c response (w, err e) = refl
  published-same h c response (w, fault) = refl

  publish_known-same :
      (publishing : Publishing ros json Message) (host : Host) (topic : Text) (msg response : Value)
      (h : ClientHandler ros json Message) (c : Connector ros Message) (w : World)
      → IsThere h topic
      → (publish_known ros json Message publishing host topic msg response h c w).0 ≡ h
  unfolding publish_known
  publish_known-same publishing host topic msg response h c w ((type, typed), (p, there)) =
      let types = touched_there topic [] type h.publisher_type typed in
      let cbs = touched_there topic none (some p) h.publisher_cb there in
      let retyped : ClientHandler ros json Message = record h {
        publisher_type = touched topic [] h.publisher_type;
      } in
      let called : ClientHandler ros json Message = record retyped {
        publisher_cb = touched topic none h.publisher_cb;
      } in
      let sent : List ℕ → World × Result (Unit {0}) = λ buffer.
        call_publisher ros json Message publishing (at_key topic none h.publisher_cb)
          (publishing.serialized buffer) w in
      attempt-keeps (λ h'. h' ≡ h) retyped c w
        (message_bytes ros json Message publishing host topic msg h)
        (λ buffer. published ros json Message called c response (sent buffer))
        (λ i. record h { publisher_type = types i })
        λ buffer.
          published-same called c response (sent buffer)
          ∙ (λ i. record h { publisher_type = types i; publisher_cb = cbs i })

  module _ (publishing : Publishing ros json Message) (host : Host) (msg before : Value)
      (h : ClientHandler ros json Message) (c : Connector ros Message) (w : World) where
    client_advertise_topic-IsReady :
        IsReady h → IsReady (client_advertise_topic ros json Message msg before h c w).0
    unfolding client_advertise_topic
    client_advertise_topic-IsReady ready =
        if-keeps IsReady (not (has_text ros json Message (bytes "type") msg)) _ _ ready (
          if-keeps IsReady (not (has_text ros json Message (bytes "topic") msg)) _ _ ready (
            attempt-keeps IsReady h c w _ _ ready
              λ r. advertise_type-IsReady r.0 r.1 msg _ h c w ready))

    unadvertise_topic-IsReady :
        IsReady h → IsReady (unadvertise_topic ros json Message msg before h c w).0
    unfolding unadvertise_topic
    unadvertise_topic-IsReady ready = attempt-keeps IsReady h c w _ _ ready λ topic.
        if_found-keeps IsReady (find_key topic h.publishers) _ _
          (λ id e. erased-IsReady topic h ready) ready

    publish_to_topic-same :
        IsReady h → (publish_to_topic ros json Message publishing host msg before h c w).0 ≡ h
    unfolding publish_to_topic publish_known
    publish_to_topic-same ready = if-keeps Same (not (contains (bytes "topic") msg)) _ _ refl (
        attempt-keeps Same h c w _ _ refl λ topic.
          if_found-keeps Same (find_key topic h.publishers) _ _
            (λ id e. publish_known-same publishing host topic msg _ h c w (ready topic id e)) refl)
      where
        Same : ClientHandler ros json Message → Type 0
        Same h' = h' ≡ h

    -- For a client with a type and a publisher for every topic that it has advertised: an advertise
    -- message and an unadvertise message, whatever they hold and whatever the node answers, keep
    -- this so, and a publish message leaves the client's state as it is.
    pub operations-IsReady :
        IsReady h
        → IsReady (client_advertise_topic ros json Message msg before h c w).0
          × IsReady (unadvertise_topic ros json Message msg before h c w).0
          × ((publish_to_topic ros json Message publishing host msg before h c w).0 ≡ h)
    operations-IsReady ready = (
      client_advertise_topic-IsReady ready,
      unadvertise_topic-IsReady ready,
      publish_to_topic-same ready,
    )
