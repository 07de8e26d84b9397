-- ===== src/Http/Tests.antt =====
-- The request parser and its buffer on a concrete request.
use edge.Http.Request.Buffer.{push}
use edge.Prelude.{◌++◌, take, ◌≡◌, ◌≤◌, ◌+◌, length, drop, refl}
use edge.Http.Request.Samples.{sample_post, opened, sample_request, parses}
use edge.Http.Request.{default_limits}
use edge.Http.Request.Accepted.{IsAccepted, parse_http_request-IsAccepted}
use edge.Http.Request.Buffer.Collected.{push-append, push-bound}
use edge.Domain.Errors.{ok}
use edge.Http.Request.Buffer.{
  ClientRequestBuffer, incomplete, default_request_buffer, parse_fields, after_search,
  take_complete, find_end, expected_request_body_len_from_header_bytes,
}

parse_http_request-IsAccepted_example : IsAccepted default_limits sample_request
parse_http_request-IsAccepted_example =
    parse_http_request-IsAccepted sample_post default_limits sample_request parses

-- The buffer behind the first twenty bytes.
abbrev half : ClientRequestBuffer
half = (push (take 20 sample_post) default_limits default_request_buffer).1

half_incomplete :
    push (take 20 sample_post) default_limits default_request_buffer ≡ (ok incomplete, half)
unfolding opened push find_end after_search take_complete parse_fields
    expected_request_body_len_from_header_bytes
half_incomplete = refl

push-append_example :
    push (drop 20 sample_post) default_limits half
    ≡ push (take 20 sample_post ++ drop 20 sample_post) default_limits default_request_buffer
push-append_example =
    push-append (take 20 sample_post) (drop 20 sample_post) default_limits default_request_buffer
      half half_incomplete

push-bound_example :
    length half.bytes ≤ default_limits.max_header_bytes + 4 + default_limits.max_body_bytes
push-bound_example =
    push-bound (take 20 sample_post) default_limits default_request_buffer half half_incomplete
