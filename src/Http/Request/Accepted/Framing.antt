-- ===== src/Http/Request/Accepted/Framing.antt =====
-- The scan of the headers for the length of the body.
use edge.Prelude.{
  ℕ, ◌≡◌, true, is_empty, some, Option, false, arith, [], List, Option-cases, All, ◌∷◌, inr, inl,
  ◌∙◌,
}
use edge.Domain.Errors.{ok, Result-cases}
use edge.Http.Request.{scan_header, note_length, LengthScan, Header, scan_headers}
use edge.Text.{txt, parse_usize, eq_ignore_ascii_case, trim}

abbrev pub IsContentLength : Header → Type 0
IsContentLength h = eq_ignore_ascii_case h.name (txt "Content-Length") ≡ true

abbrev pub IsTransferEncoding : Header → Type 0
IsTransferEncoding h = eq_ignore_ascii_case h.name (txt "Transfer-Encoding") ≡ true

-- The header, if it is a Content-Length, announces what the scan holds.
abbrev pub Announces : Option ℕ → Header → Type 0
Announces o h = IsContentLength h → (n : ℕ) × (parse_usize (trim h.value) ≡ some n) × (o ≡ some n)

-- One header against the scan before and behind it.
record Scanned (scan scan' : LengthScan) (h : Header) : Type 0 where
  announced : Announces scan'.content_length h
  kept : (n : ℕ) → scan.content_length ≡ some n → scan'.content_length ≡ some n
  silent : (IsContentLength h → ⊥) → scan'.content_length ≡ scan.content_length
  coded : scan'.has_transfer_encoding ≡ false → scan.has_transfer_encoding ≡ false
  empty_coding :
      scan'.has_transfer_encoding ≡ false → IsTransferEncoding h → is_empty (trim h.value) ≡ true

scan_header-Scanned :
    (scan scan' : LengthScan) (h : Header) → scan_header scan h ≡ ok scan' → Scanned scan scan' h
unfolding scan_header note_length
scan_header-Scanned scan scan' h e = record {
  announced = λ k. elim (Option-cases (parse_usize (trim h.value))) [
    | inl none_e ↦ absurd (ground arith)
    | inr (n, some_e) ↦ (n, some_e, ground arith)
  ];
  kept = λ n k. ground arith;
  silent = λ k. ground arith;
  coded = λ k. ground arith;
  empty_coding = λ k t. ground arith;
}

-- What the scan of a list of headers has established about each of them.
pub record ScannedAll (scan final : LengthScan) (hs : List Header) : Type 0 where
  pub announced : All (Announces final.content_length) hs
  pub kept : (n : ℕ) → scan.content_length ≡ some n → final.content_length ≡ some n
  pub silent : All (λ h. IsContentLength h → ⊥) hs → final.content_length ≡ scan.content_length
  pub coded : final.has_transfer_encoding ≡ false → scan.has_transfer_encoding ≡ false
  pub empty_coding :
      final.has_transfer_encoding ≡ false
      → All (λ h. IsTransferEncoding h → is_empty (trim h.value) ≡ true) hs

pub scan_headers-ScannedAll :
    (scan final : LengthScan) (hs : List Header)
    → scan_headers scan hs ≡ ok final
    → ScannedAll scan final hs
unfolding scan_headers
scan_headers-ScannedAll scan final [] e = record {
  announced = ground arith;
  kept = λ n k. ground arith;
  silent = λ k. ground arith;
  coded = λ k. ground arith;
  empty_coding = λ k. ground arith;
}
scan_headers-ScannedAll scan final (h ∷ hs) e = elim (Result-cases (scan_header scan h)) [
  | inl (scan', f) ↦
      let one = scan_header-Scanned scan scan' h f in
      let more = scan_headers-ScannedAll scan' final hs (ground arith) in
      record {
        announced = (λ k. let (n, p, q) = one.announced k in (n, p, more.kept n q), more.announced);
        kept = λ n k. more.kept n (one.kept n k);
        silent = λ k. more.silent (k.1) ∙ one.silent (k.0);
        coded = λ k. one.coded (more.coded k);
        empty_coding = λ k. (one.empty_coding (more.coded k), more.empty_coding k);
      }
  | inr (x, f) ↦ absurd (ground arith)
]
