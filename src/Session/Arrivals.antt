-- ===== src/Session/Arrivals.antt =====
-- What a frame does to a session, whether its stream is there or not.
use puic.Prelude.{ℕ, ◌^◌, ◌<◌, Bool, ◌||◌, Option, none, some, ◌==◌, if-cases}
use puic.Session.{
  Session, Stream, crypto_stream_id, on_stream_frame, deliver, without_stream, on_data_available,
  get_or_create_dynamic_stream,
}
use puic.Session.Taken.{IsValid, Kept}
use puic.Session.Closing.{Fine}
use puic.Session.Frames.{FineGet, close_connection-Fine, get_or_create_dynamic_stream-FineGet}
use puic.Session.Changes.{on_final_byte_offset-IsValid}

without_stream-Fine :
    (side : ℕ) (s u : Session) (id : ℕ) (fin violates : Bool)
    → IsValid side u × Kept s u
    → Fine side s (some (without_stream u id fin violates))
unfolding without_stream
without_stream-Fine side s u id fin violates h =
    let e = on_final_byte_offset-IsValid side u id violates h.0 in
    if-cases (λ (w : Session). IsValid side w × Kept s w) fin (λ _. (e.0, λ x c. e.1 x (h.1 x c)))
      (λ _. h)

-- Whatever the stream's delegate is told, the session is the one that GetOrCreateStream left.
deliver-Fine :
    (side : ℕ) (s : Session) (id : ℕ) (fin violates readable : Bool)
    (r : Option (Option Stream × Session))
    → FineGet side s r
    → Fine side s (deliver id fin violates readable r)
unfolding deliver on_data_available
deliver-Fine side s id fin violates readable none h = tt
deliver-Fine side s id fin violates readable (some (none, u)) h =
    without_stream-Fine side s u id fin violates h
deliver-Fine side s id fin violates readable (some (some t, u)) h =
    if-cases (Fine side s) readable
      (λ _. if-cases (Fine side s) (t.closed || t.delegate) (λ _. h) (λ _. tt)) (λ _. h)

pub on_stream_frame-Fine :
    (side : ℕ) (s : Session) (id : ℕ) (fin violates readable : Bool)
    → IsValid side s
    → id < 2 ^ 32
    → Fine side s (on_stream_frame s id fin violates readable)
unfolding on_stream_frame
on_stream_frame-Fine side s id fin violates readable v small =
    if-cases (Fine side s) (id == 0) (λ _. close_connection-Fine side s v)
      (λ _.
        if-cases (Fine side s) (id == crypto_stream_id)
          (λ _.
            if-cases (λ (u : Session). Fine side s (some u)) fin
              (λ _. close_connection-Fine side s v) (λ _. (v, λ x c. c)))
          (λ n.
            deliver-Fine side s id fin violates readable (get_or_create_dynamic_stream s id)
              (get_or_create_dynamic_stream-FineGet side s id v small n)))
