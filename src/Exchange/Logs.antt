-- ===== src/Exchange/Logs.antt =====
-- What a log of actions shows: the requests asked, the replies given and the entries recorded.
use second_eye.Prelude.{
  ℕ, ◌≡◌, ◌≢◌, refl, sym, ap, ◌∙◌, Option, none, some, List, [], ◌∷◌, ◌++◌, map, arith, length,
  length-append, Option-cases, inl, inr,
}
use mathlib.Core.Path.{subst}
use mathlib.Core.List.{append_assoc, map-append, append-nil}
use mathlib.Core.Option.{some-injective, none-ne-some}
use second_eye.Json.{Bytes}
use second_eye.Har.{HarEntry, RequestEvent, ResponseEvent, build_har_entry, decode_ascii}
use second_eye.Prelude.Text.{Text}
use second_eye.Json.{Float64}
use second_eye.Exchange.{
  Outside, Action, asked, forwarded, recorded, answered, switched, End, gateway_failed, raised,
  Turn, Recorder, serve,
}

unfoldable pub asked_in : List Action → List RequestEvent
asked_in [] = []
asked_in (asked r body ∷ log) = r ∷ asked_in log
asked_in (forwarded c sends ∷ log) = asked_in log
asked_in (recorded e ∷ log) = asked_in log
asked_in (answered r sends ∷ log) = asked_in log
asked_in (switched r ∷ log) = asked_in log

unfoldable pub answered_in : List Action → List ℕ
answered_in [] = []
answered_in (asked r body ∷ log) = answered_in log
answered_in (forwarded c sends ∷ log) = answered_in log
answered_in (recorded e ∷ log) = answered_in log
answered_in (answered r sends ∷ log) = r.event.status_code ∷ answered_in log
answered_in (switched r ∷ log) = answered_in log

unfoldable pub recorded_in : List Action → List HarEntry
recorded_in [] = []
recorded_in (asked r body ∷ log) = recorded_in log
recorded_in (forwarded c sends ∷ log) = recorded_in log
recorded_in (recorded e ∷ log) = e ∷ recorded_in log
recorded_in (answered r sends ∷ log) = recorded_in log
recorded_in (switched r ∷ log) = recorded_in log

pub asked_in-append : (l k : List Action) → asked_in (l ++ k) ≡ asked_in l ++ asked_in k
unfolding asked_in
asked_in-append [] k = refl
asked_in-append (asked r body ∷ l) k = ap (λ x. r ∷ x) (asked_in-append l k)
asked_in-append (forwarded c sends ∷ l) k = asked_in-append l k
asked_in-append (recorded e ∷ l) k = asked_in-append l k
asked_in-append (answered r sends ∷ l) k = asked_in-append l k
asked_in-append (switched r ∷ l) k = asked_in-append l k

pub answered_in-append : (l k : List Action) → answered_in (l ++ k) ≡ answered_in l ++ answered_in k
unfolding answered_in
answered_in-append [] k = refl
answered_in-append (asked r body ∷ l) k = answered_in-append l k
answered_in-append (forwarded c sends ∷ l) k = answered_in-append l k
answered_in-append (recorded e ∷ l) k = answered_in-append l k
answered_in-append (answered r sends ∷ l) k =
    ap (λ x. r.event.status_code ∷ x) (answered_in-append l k)
answered_in-append (switched r ∷ l) k = answered_in-append l k

pub recorded_in-append : (l k : List Action) → recorded_in (l ++ k) ≡ recorded_in l ++ recorded_in k
unfolding recorded_in
recorded_in-append [] k = refl
recorded_in-append (asked r body ∷ l) k = recorded_in-append l k
recorded_in-append (forwarded c sends ∷ l) k = recorded_in-append l k
recorded_in-append (recorded e ∷ l) k = ap (λ x. e ∷ x) (recorded_in-append l k)
recorded_in-append (answered r sends ∷ l) k = recorded_in-append l k
recorded_in-append (switched r ∷ l) k = recorded_in-append l k

pub build_har_entry-status :
    (r : RequestEvent) (body : Bytes) (resp : ResponseEvent) (resp_body : Bytes) (url : Text)
    (started_at : ℕ) (time_ms : Float64) (e : HarEntry)
    → build_har_entry r body resp resp_body url started_at time_ms ≡ some e
    → (e.response.status ≡ resp.status_code) × (e.request.url ≡ url)
unfolding build_har_entry decode_ascii
build_har_entry-status r body resp resp_body url started_at time_ms e h = ground arith

-- the status that a failed gateway gives, where that is how a connection ends
abbrev pub gateway_status : End → List ℕ
gateway_status gateway_failed = 502 ∷ []
gateway_status _ = []

abbrev pub gateway_status_of : Option End → List ℕ
gateway_status_of none = []
gateway_status_of (some e) = gateway_status e

abbrev pub status_of : HarEntry → ℕ
status_of e = e.response.status

module _ {S : Type 0} (record_entry : Recorder S) where
  -- the state after entries were recorded
  unfoldable pub record_all : List HarEntry → S → S
  record_all [] s = s
  record_all (e ∷ es) s = record_all es (record_entry e s).1

  pub record_all-append :
      (es fs : List HarEntry) (s : S) → record_all (es ++ fs) s ≡ record_all fs (record_all es s)
  unfolding record_all
  record_all-append [] fs s = refl
  record_all-append (e ∷ es) fs s = record_all-append es fs (record_entry e s).1

  -- Each request has an answer; the answers are those of the recorded entries, and 502 at a failed
  -- gateway; the state is the one that the recorded entries lead to.
  abbrev pub IsAnswered : S → List Action → S → List ℕ → Type 0
  IsAnswered s log s' gateway =
      (length (asked_in log) ≡ length (answered_in log))
      × (answered_in log ≡ map status_of (recorded_in log) ++ gateway)
      × (s' ≡ record_all (recorded_in log) s)

  IsAnswered-append :
      (s s1 s2 : S) (log more : List Action) (gateway : List ℕ)
      → IsAnswered s log s1 []
      → IsAnswered s1 more s2 gateway
      → IsAnswered s (log ++ more) s2 gateway
  IsAnswered-append s s1 s2 log more gateway (count, same, state) (count', same', state') = (
    rw (asked_in-append log more, answered_in-append log more)
        (omega (
          arith,
          length-append (asked_in log) (asked_in more),
          length-append (answered_in log) (answered_in more),
        )),
    rw
        (
          answered_in-append log more,
          recorded_in-append log more,
          map-append status_of (recorded_in log) (recorded_in more),
          same,
          same',
          append-nil (map status_of (recorded_in log)),
        )
        (sym (append_assoc (map status_of (recorded_in log)) _ gateway)),
    state'
        ∙ ap (record_all (recorded_in more)) state
        ∙ sym (record_all-append (recorded_in log) (recorded_in more) s)
        ∙ ap (λ es. record_all es s) (sym (recorded_in-append log more)),
  )

  module _ (turn : Outside → S → Turn S) where
    -- what serving needs of a turn
    abbrev pub Answers : Type 0
    Answers =
        (o : Outside) (s : S)
        → let (done, (s', end)) = turn o s in
          end ≢ some raised → IsAnswered s done s' (gateway_status_of end)

    pub serve-goes :
        (o : Outside) (os : List Outside) (s : S)
        → (turn o s).1.1 ≡ none
        → let rest = serve turn os (turn o s).1.0 in
          serve turn (o ∷ os) s ≡ ((turn o s).0 ++ rest.0, rest.1)
    unfolding serve
    serve-goes o os s h = ground arith

    pub serve-ends :
        (o : Outside) (os : List Outside) (s : S) (e : End)
        → (turn o s).1.1 ≡ some e
        → serve turn (o ∷ os) s ≡ ((turn o s).0, ((turn o s).1.0, e))
    unfolding serve
    serve-ends o os s e h = ground arith

    -- what is to be shown of a connection, as a property of its result
    abbrev OfResult : S → List Action × (S × End) → Type 0
    OfResult s (log, (s', end)) = end ≢ raised → IsAnswered s log s' (gateway_status end)

    pub serve-IsAnswered :
        Answers
        → (os : List Outside) (s : S)
        → let (log, (s', end)) = serve turn os s in
          end ≢ raised → IsAnswered s log s' (gateway_status end)
    serve-IsAnswered h [] s =
        unfold serve asked_in answered_in recorded_in record_all in λ n. (refl, refl, refl)
    serve-IsAnswered h (o ∷ os) s = elim (Option-cases (turn o s).1.1) [
      | inl goes ↦
          let rest = serve turn os (turn o s).1.0 in
          let first : IsAnswered s (turn o s).0 (turn o s).1.0 [] =
            rw goes at (h o s) (λ e. none-ne-some _ e) in
          subst (OfResult s) (sym (serve-goes o os s goes)) (λ n.
            IsAnswered-append s _ _ (turn o s).0 rest.0 _ first
              (serve-IsAnswered h os (turn o s).1.0 n))
      | inr (e, ends) ↦
          subst (OfResult s) (sym (serve-ends o os s e ends))
            (λ n. (rw ends at (h o s)) (λ p. n (some-injective _ _ p)))
    ]
