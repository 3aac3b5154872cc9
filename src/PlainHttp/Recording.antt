-- ===== src/PlainHttp/Recording.antt =====
-- Which requests of a plain HTTP connection are recorded: those whose host is in scope.
use second_eye.Prelude.{
  ◌≤◌, ◌≡◌, ◌≢◌, refl, sym, ap, ◌∙◌, true, Option, none, some, List, [], ◌∷◌, ◌++◌, map, arith,
  length, Option-cases, Bool-cases, inl, inr, nat_eq, if◌then◌else◌, if_true, if_false,
}
use mathlib.Core.Path.{subst}
use mathlib.Core.List.{append_assoc, map-append, append-nil}
use mathlib.Core.Option.{some-injective, none-ne-some}
use second_eye.Prelude.Text.{Text}
use second_eye.Json.{Bytes}
use second_eye.Har.{HarEntry, RequestEvent, build_har_entry}
use second_eye.Manager.{Result, ok, err}
use second_eye.Upstream.{UpstreamError, is_connection_error, Connection, Connected, opened, failed}
use second_eye.HttpCycle.{
  Sent, Reply, Received, received, not_received, receive, read_request, bad_gateway,
}
use second_eye.Exchange.{
  Outside, Action, asked, forwarded, recorded, answered, switched, End, raised, gateway_failed,
  Turn, answer, fail_gateway, fail_connect, serve,
}
use second_eye.Exchange.Logs.{
  recorded_in, recorded_in-append, build_har_entry-status, serve-goes, serve-ends,
}
use second_eye.PlainHttp.{
  Target, PlainHttpHandler, parse_absolute_target, parse_absolute_target_raises, build_url,
  is_in_scope, after_response, record_response, record_built, handle_response, forward_request,
  handle_target, handle_request, plain_http_turn, serve_plain_http,
}

abbrev pub url_of : HarEntry → Text
url_of e = e.request.url

module _ {S : Type 0} (h : PlainHttpHandler S) where
  -- the URL of a request whose host is in scope
  unfoldable pub due : Option Target → List Text
  due none = []
  due (some target) = if is_in_scope h target.0 then build_url target ∷ [] else []

  -- the URLs of the requests asked whose hosts are in scope
  unfoldable pub due_in : List Action → List Text
  due_in [] = []
  due_in (asked r body ∷ log) = due (parse_absolute_target h.urls r) ++ due_in log
  due_in (forwarded c sends ∷ log) = due_in log
  due_in (recorded e ∷ log) = due_in log
  due_in (answered r sends ∷ log) = due_in log
  due_in (switched r ∷ log) = due_in log

  due_in-append : (l k : List Action) → due_in (l ++ k) ≡ due_in l ++ due_in k
  unfolding due_in
  due_in-append [] k = refl
  due_in-append (asked r body ∷ l) k =
      ap (λ x. due (parse_absolute_target h.urls r) ++ x) (due_in-append l k)
      ∙ sym (append_assoc (due (parse_absolute_target h.urls r)) (due_in l) (due_in k))
  due_in-append (forwarded c sends ∷ l) k = due_in-append l k
  due_in-append (recorded e ∷ l) k = due_in-append l k
  due_in-append (answered r sends ∷ l) k = due_in-append l k
  due_in-append (switched r ∷ l) k = due_in-append l k

  due-short : (x : Option Target) → length (due x) ≤ 1
  unfolding due
  due-short none = omega arith
  due-short (some target) = ground arith

  asked-short :
      (r : RequestEvent) (body : Bytes) (rest : List Action)
      → due_in rest ≡ []
      → length (due_in (asked r body ∷ rest)) ≤ 1
  unfolding due_in
  asked-short r body rest none_ =
      let found = parse_absolute_target h.urls r in
      rw (none_, append-nil (due found)) (due-short found)

  -- The URLs of the recorded entries are those due, but for the last one where the gateway failed.
  abbrev pub IsRecorded : List Action → Option End → Type 0
  IsRecorded log end =
      (lost : List Text) × (due_in log ≡ map url_of (recorded_in log) ++ lost)
      × (length lost ≤ 1)
      × (end ≢ some gateway_failed → lost ≡ [])

  -- what is to be shown of a turn
  abbrev OfTurn : Turn S → Type 0
  OfTurn (done, (s, end)) = end ≢ some raised → IsRecorded done end

  fail_gateway-OfTurn :
      (done : List Action) (s : S)
      → recorded_in done ≡ []
      → length (due_in done) ≤ 1
      → OfTurn (fail_gateway done s)
  unfolding fail_gateway recorded_in due_in
  fail_gateway-OfTurn done s none_ short n = (
    due_in done,
    rw
        (
          due_in-append done (answer bad_gateway ∷ []),
          append-nil (due_in done),
          recorded_in-append done (answer bad_gateway ∷ []),
          none_,
        )
        refl,
    short,
    λ m. absurd (m refl),
  )

  fail_connect-OfTurn :
      (r : RequestEvent) (body : Bytes) (e : UpstreamError) (s : S)
      → OfTurn (fail_connect (asked r body ∷ []) e s)
  unfolding fail_connect
  fail_connect-OfTurn r body e s = elim (Bool-cases (is_connection_error e)) [
    | inl failing ↦ rw failing (
        fail_gateway-OfTurn (asked r body ∷ []) s (unfold recorded_in in refl)
          (asked-short r body [] (unfold due_in in refl)))
    | inr other ↦ rw other (λ n. absurd (n refl))
  ]

  after_response-OfTurn :
      (done : List Action) (o : Outside) (s : S)
      → due_in done ≡ map url_of (recorded_in done)
      → OfTurn (after_response h done o s)
  unfolding after_response
  after_response-OfTurn done o s same = elim (Bool-cases o.delivered) [
    | inl yes_ ↦ rw yes_ (λ n. ([], same ∙ sym (append-nil _), omega arith, λ m. refl))
    | inr no_ ↦ rw no_ (λ n. absurd (n refl))
  ]

  record_response-OfTurn :
      (done : List Action) (o : Outside) (e : HarEntry) (reply : Reply) (x : Result (Unit {0}) × S)
      → due_in done ≡ map url_of (e ∷ recorded_in done)
      → recorded_in done ≡ []
      → OfTurn (record_response h done o e reply x)
  unfolding record_response due_in recorded_in
  record_response-OfTurn done o e reply (ok u, s) same fresh =
      after_response-OfTurn (done ++ recorded e ∷ answer reply ∷ []) o s (
        rw
          (
            due_in-append done (recorded e ∷ answer reply ∷ []),
            recorded_in-append done (recorded e ∷ answer reply ∷ []),
            fresh,
            same,
            fresh,
          )
          refl)
  record_response-OfTurn done o e reply (err x, s) same fresh = λ n. absurd (n refl)

  module _ (o : Outside) (r : RequestEvent) (body : Bytes) (target : Target)
      (found : parse_absolute_target h.urls r ≡ some target) where
    handle_response-OfTurn :
        (c : Connection) (sends : List Sent) (x : Received) (s : S)
        → OfTurn (handle_response h (asked r body ∷ forwarded c sends ∷ []) o r body target x s)
    unfolding handle_response
    handle_response-OfTurn c sends not_received s =
        fail_gateway-OfTurn (asked r body ∷ forwarded c sends ∷ []) s (unfold recorded_in in refl)
          (asked-short r body (forwarded c sends ∷ []) (unfold due_in in refl))
    handle_response-OfTurn c sends (received reply) s = elim (Bool-cases (is_in_scope h target.0)) [
      | inl in_ ↦ subst OfTurn (sym (if_true _ _ in_)) (of_built _ refl in_)
      | inr out ↦ subst OfTurn (sym (if_false _ _ out)) (
          after_response-OfTurn (asked r body ∷ forwarded c sends ∷ answer reply ∷ []) o s
            (unfold recorded_in due_in due in rw (found, out) refl))
    ]
      where
        of_built :
            (x : Option HarEntry)
            → build_har_entry r body reply.event reply.body
                (build_url target)
                o.started_at
                o.time_ms
              ≡ x
            → is_in_scope h target.0 ≡ true
            → OfTurn (record_built h (asked r body ∷ forwarded c sends ∷ []) o reply x s)
        of_built none unbuilt in_ = unfold record_built in λ n. absurd (n refl)
        of_built (some e) built in_ =
            let same = (build_har_entry-status r body reply.event reply.body _ _ _ e built).1 in
            unfold record_built in
            record_response-OfTurn (asked r body ∷ forwarded c sends ∷ []) o e reply
              (h.on_entry_recorded e s)
              (unfold recorded_in due_in due in rw (found, in_, same) refl)
              (unfold recorded_in in refl)

    forward_request-OfTurn :
        (x : Connected) (s : S) → OfTurn (forward_request h o r body target x s)
    unfolding forward_request
    forward_request-OfTurn (failed e) s = fail_connect-OfTurn r body e s
    forward_request-OfTurn (opened c) s = handle_response-OfTurn c _ (receive o.upstream) s

  handle_target-OfTurn :
      (o : Outside) (r : RequestEvent) (body : Bytes) (x : Option Target) (s : S)
      → parse_absolute_target h.urls r ≡ x
      → OfTurn (handle_target h o r body x s)
  unfolding handle_target recorded_in due_in due
  handle_target-OfTurn o r body none s found = λ n. ([], rw found refl, omega arith, λ m. refl)
  handle_target-OfTurn o r body (some target) s found =
      forward_request-OfTurn o r body target found _ s

  handle_request-OfTurn :
      (o : Outside) (x : Option (Option RequestEvent × Bytes)) (s : S)
      → OfTurn (handle_request h o x s)
  unfolding handle_request recorded_in due_in
  handle_request-OfTurn o none s = λ n. ([], refl, omega arith, λ m. refl)
  handle_request-OfTurn o (some (none, body)) s = λ n. ([], refl, omega arith, λ m. refl)
  handle_request-OfTurn o (some (some r, body)) s =
      elim (Bool-cases (parse_absolute_target_raises h.urls r)) [
        | inl bad ↦ subst OfTurn (sym (if_true _ _ bad)) (λ n. absurd (n refl))
        | inr good ↦
            subst OfTurn (sym (if_false _ _ good))
              (handle_target-OfTurn o r body (parse_absolute_target h.urls r) s refl)
      ]

  -- what is to be shown of a connection
  abbrev OfResult : List Action × (S × End) → Type 0
  OfResult (log, (s, end)) = end ≢ raised → IsRecorded log (some end)

  IsRecorded-append :
      (log more : List Action) (end : Option End)
      → IsRecorded log none
      → IsRecorded more end
      → IsRecorded (log ++ more) end
  IsRecorded-append log more end (m, same, short, all_) (lost, same', short', all_') = (
    lost,
    rw
        (
          due_in-append log more,
          recorded_in-append log more,
          map-append url_of (recorded_in log) (recorded_in more),
          same,
          same',
          all_ (λ e. none-ne-some _ e),
          append-nil (map url_of (recorded_in log)),
        )
        (sym (append_assoc (map url_of (recorded_in log)) _ lost)),
    short',
    all_',
  )

  -- On a plain HTTP connection that no exception ends, what is recorded are the requests in scope and
  -- no others: the URLs of the recorded entries are, in order, those of the requests asked whose
  -- absolute target names a host in scope; where the gateway failed, one of these at the end may be missing.
  pub serve_plain_http-records :
      (os : List Outside) (s : S)
      → let (log, (s', end)) = serve_plain_http h os s in end ≢ raised → IsRecorded log (some end)
  unfolding serve_plain_http
  serve_plain_http-records [] s =
      unfold serve recorded_in due_in in λ n. ([], refl, omega arith, λ m. refl)
  serve_plain_http-records (o ∷ os) s =
      let turn = plain_http_turn h in
      let this : OfTurn (turn o s) =
        unfold plain_http_turn in handle_request-OfTurn o (read_request o.client) s in
      elim (Option-cases (turn o s).1.1) [
        | inl goes ↦
            let rest = serve turn os (turn o s).1.0 in
            let first : IsRecorded (turn o s).0 none = rw goes at this (λ e. none-ne-some _ e) in
            subst OfResult (sym (serve-goes h.on_entry_recorded turn o os s goes)) (λ n.
              IsRecorded-append (turn o s).0 rest.0 _ first
                (serve_plain_http-records os (turn o s).1.0 n))
        | inr (e, ends) ↦
            subst OfResult (sym (serve-ends h.on_entry_recorded turn o os s e ends))
              (λ n. (rw ends at this) (λ p. n (some-injective _ _ p)))
      ]
