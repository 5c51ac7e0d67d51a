-- ===== src/Device/Chosen.antt =====
-- Which endpoints a pipe has, and when a stream can be cancelled.
use zune_sync.Base.{
  ℕ, ◌&&◌, ◌≡◌, refl, ap, ◌∙◌, not, Bool, true, false, if◌then◌else◌, List, [], ◌∷◌, Option, none,
  some, arith,
}
use zune_sync.Base.Stateful.{Stateful}
use zune_sync.Device.BulkPipe.{
  Endpoint, Choice, Endpoints, is_bulk, is_out, choose, choose_all, endpoints_of, create, Pipe,
  set_current_stream, with_stream, cancel, read,
}

-- The last endpoint that passes a test, or else this one.
unfoldable pub last_or : (Endpoint → Bool) → Option Endpoint → List Endpoint → Option Endpoint
last_or test o [] = o
last_or test o (ep ∷ eps) = last_or test (if test ep then some ep else o) eps

abbrev pub is_bulk_out : Endpoint → Bool
is_bulk_out ep = is_out ep.direction && is_bulk ep.type

abbrev pub is_bulk_in : Endpoint → Bool
is_bulk_in ep = not (is_out ep.direction) && is_bulk ep.type

abbrev pub is_event : Endpoint → Bool
is_event ep = not (is_out ep.direction) && not (is_bulk ep.type)

choose_lem :
    (ep : Endpoint) (c : Choice)
    → choose ep c ≡ record {
      out_endpoint = if is_bulk_out ep then some ep else c.out_endpoint;
      in_endpoint = if is_bulk_in ep then some ep else c.in_endpoint;
      interrupt_endpoint = if is_event ep then some ep else c.interrupt_endpoint;
    }
unfolding choose
choose_lem ep c = by_test (is_out ep.direction) (is_bulk ep.type)
  where
    by_test :
        (o b : Bool)
        → (if o
            then (if b then record c { out_endpoint = some ep } else c)
            else if b
            then record c { in_endpoint = some ep }
            else record c { interrupt_endpoint = some ep })
          ≡ record {
            out_endpoint = if o && b then some ep else c.out_endpoint;
            in_endpoint = if not o && b then some ep else c.in_endpoint;
            interrupt_endpoint = if not o && not b then some ep else c.interrupt_endpoint;
          }
    by_test true true = refl
    by_test true false = refl
    by_test false true = refl
    by_test false false = refl

choose_all-last :
    (eps : List Endpoint) (c : Choice)
    → choose_all eps c ≡ record {
      out_endpoint = last_or is_bulk_out c.out_endpoint eps;
      in_endpoint = last_or is_bulk_in c.in_endpoint eps;
      interrupt_endpoint = last_or is_event c.interrupt_endpoint eps;
    }
unfolding choose_all last_or
choose_all-last [] c = refl
choose_all-last (ep ∷ eps) c =
    choose_all-last eps (choose ep c)
    ∙ ap
        (λ (d : Choice). record {
          out_endpoint = last_or is_bulk_out d.out_endpoint eps;
          in_endpoint = last_or is_bulk_in d.in_endpoint eps;
          interrupt_endpoint = last_or is_event d.interrupt_endpoint eps;
        })
        (choose_lem ep c)

-- `Create` takes the last bulk endpoint that goes out, the last other bulk endpoint, and the last endpoint
-- that neither is bulk nor goes out; it throws where one of the three is missing.
create-last :
    (eps : List Endpoint)
    → create eps
      ≡ endpoints_of
          (last_or is_bulk_in none eps)
          (last_or is_bulk_out none eps)
          (last_or is_event none eps)
unfolding create
create-last eps =
    ap (λ (c : Choice). endpoints_of c.in_endpoint c.out_endpoint c.interrupt_endpoint)
      (choose_all-last eps
        (record { out_endpoint = none; in_endpoint = none; interrupt_endpoint = none }))

-- While `Read` transfers, `Cancel` cancels its stream; once it is out, on whatever way, no stream is
-- current, and `Cancel` changes nothing.
read-cancel :
    {D : Type 0} (transfer_bulk : Endpoint → ℕ → ℕ → Stateful (Pipe D) (Unit {0})) (e : Endpoints)
    (stream timeout : ℕ) (p : Pipe D)
    → ((cancel (set_current_stream (some stream) p)).cancelled stream ≡ true)
      × (cancel (read transfer_bulk e stream timeout p).1
          ≡ (read transfer_bulk e stream timeout p).1)
unfolding read with_stream set_current_stream cancel
read-cancel transfer_bulk e stream timeout p = (ground arith, refl)
