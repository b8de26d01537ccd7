-- ===== src/Examples/Streams.antt =====
-- The theorems on the log stream, at a run that logs while a browser connects.
use chipatelier.Prelude.{arith, ◌≡◌, refl, List, [], ◌∷◌, ◌++◌, map}
use chipatelier.Worker.Store.{note_grt, note_retries, note_exception}
use chipatelier.Websocket.{Stream, accepted, Event, publish, advance, disconnect, run_stream}
use chipatelier.Websocket.Order.{Sublist, nil, keep, stream_order, gap_lost}
use chipatelier.Examples.Stores.{list_logs}

abbrev opened : Stream list_logs
opened = record { logbuf = note_grt ∷ []; published = note_grt ∷ []; phase = accepted; outbox = [] }

abbrev events : List Event
events = publish note_retries ∷ advance ∷ advance ∷ publish note_exception ∷ disconnect ∷ []

stream_order_example :
    Sublist
      (run_stream list_logs events opened).outbox
      (run_stream list_logs events opened).published
stream_order_example = stream_order list_logs events opened refl refl (keep note_grt nil)

gap_lost_example :
    ((run_stream list_logs
        (advance ∷ map publish (note_retries ∷ []) ++ advance ∷ map publish (note_exception ∷ []))
        opened).outbox
      ≡ note_grt ∷ note_exception ∷ [])
    × (list_logs.items
          (run_stream list_logs
            (advance ∷ map publish (note_retries ∷ []) ++ advance ∷ [])
            opened).logbuf
        ≡ note_grt ∷ note_retries ∷ [])
gap_lost_example =
    gap_lost list_logs (note_grt ∷ []) (note_grt ∷ []) (note_retries ∷ []) (note_exception ∷ [])
      (omega arith)
