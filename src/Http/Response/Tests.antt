-- ===== src/Http/Response/Tests.antt =====
-- The framer and the header projection on concrete bytes.
use edge.Prelude.{◌++◌, ◌≡◌, refl, true, some, Bool, ℕ, length}
use edge.Domain.Errors.{ok}
use edge.Domain.Exec.{◌>>=◌}
use edge.Text.{Bytes, txt, crlf, ends_with, text_eq}
use edge.Http.Forwarding.Sanitizer.{new_sanitizer, sanitize}
use edge.Http.Forwarding.Sanitizer.Fragments.{sanitize_again, sanitize-append}
use edge.Http.Response.{ResponseBodyExpectation}
use edge.Http.Response.Framing.{
  HttpResponseFraming, push, with_body_expectation, report, in_headers, progress, push_loop, turn,
  byte_step, head_byte, try_push_bounded,
}
use edge.Http.Response.Framing.Bytewise.{bytewise}
use edge.Http.Response.Framing.Chunks.{push-eq-bytewise}
use edge.Http.Response.Framing.Cuts.{push-concat, behind}
use edge.Http.Response.Framing.Live.{IsLiveState}
use mathlib.Core.Option

abbrev always : ℕ → Bool
always n = true

abbrev opening : HttpResponseFraming
opening = with_body_expectation 1024 128 ResponseBodyExpectation.normal

abbrev first_part : Bytes
first_part = txt "HTTP/1.1 2"

abbrev second_part : Bytes
second_part = txt "04 -" ++ crlf ++ crlf

push-eq-bytewise_example :
    (push always first_part opening
      ≡ some (report always (length first_part) (bytewise always 0 first_part opening)))
    × IsLiveState (report always (length first_part) (bytewise always 0 first_part opening)).1.state
unfolding with_body_expectation
push-eq-bytewise_example = push-eq-bytewise always first_part opening tt refl

abbrev after_first : HttpResponseFraming
after_first = record opening { state = in_headers first_part }

pushed_first : push always first_part opening ≡ some (ok (progress 10 10 after_first), after_first)
unfolding push push_loop turn byte_step head_byte try_push_bounded with_body_expectation ends_with
    text_eq ◌>>=◌
pushed_first = refl

push-concat_example :
    push always (first_part ++ second_part) opening
    ≡ Option.map (behind always (progress 10 10 after_first)) (push always second_part after_first)
unfolding with_body_expectation
push-concat_example =
    push-concat always first_part second_part opening after_first (progress 10 10 after_first) tt
      pushed_first refl

sanitize-append_example :
    sanitize always always (new_sanitizer 1024 true) (first_part ++ second_part)
    ≡ sanitize_again always always
        (λ n. refl)
        (sanitize always always (new_sanitizer 1024 true) first_part)
        second_part
sanitize-append_example =
    sanitize-append always always (λ n. refl) (new_sanitizer 1024 true) first_part second_part
