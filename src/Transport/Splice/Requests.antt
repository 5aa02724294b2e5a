-- ===== src/Transport/Splice/Requests.antt =====
-- crates/updater/src/transport/download.rs: the response to a request is the rest of the body.
use retrovert.Common.{
  ℕ, ◌<◌, ◌≡◌, refl, sym, ◌∙◌, ap, Bool, true, false, Option, some, List, inl, inr, ltb, leb, arith,
  length, Bool-cases, Option-cases,
}
use retrovert.Common.Slices.{drop}
use retrovert.Queue.Transport.{Status}
use retrovert.Transport.Meta.{i64_limit}
use retrovert.Transport.Http.{Get, Response, is_content_type_mismatch, resume_response_is_valid}
use retrovert.Transport.Download.{Disk, Download, Failure, server, resume_restart, html_page}
use retrovert.Transport.Reading.{get, is_empty, answered, start_transfer, discard, refuse}
use retrovert.Transport.Splice.{IsHonest, IsSound, Sized, IsOpen, IsKept, count}
use retrovert.Transport.Splice.Entries.{removed-IsSound}

module _ (body : List ℕ) (small : length body < i64_limit) where
  -- What a request comes to: a transfer that goes on, or one that is over.
  abbrev pub Ready : Disk × Download × Bool → Type 0
  Ready (d, x, true) =
      IsSound body d
      × Sized body x.xfer.file_size
      × (x.status ≡ Status.downloading)
      × IsOpen body d x
      × (x.xfer.started ≡ true)
  Ready (d, x, false) = IsKept body (record { disk = d; live = some x })

  refused-Ready :
      (d : Disk) (x : Download) (failure : Failure) (no_retry : Bool)
      → Sized body x.xfer.file_size
      → Ready (refuse (discard d x) failure no_retry)
  unfolding discard
  refused-Ready d x failure no_retry sized = record {
    disk = removed-IsSound body small;
    live = (sized, tt);
  }

  answered-Ready :
      (d : Disk) (x : Download) (r : Response)
      → IsSound body d
      → Sized body x.xfer.file_size
      → IsOpen body d x
      → (r.status < 400
          → resume_response_is_valid x.xfer.resume_offset r.status ≡ true
          → is_content_type_mismatch r.content_type x.xfer.url ≡ false
          → r.body ≡ drop (count x) body)
      → Ready (answered d x r)
  unfolding answered
  answered-Ready d x r v sized (is_open, long, told, rest_ok) served =
      elim (Bool-cases (leb 400 r.status)) [
        | inl bad ↦ rw bad (refused-Ready d x server (ltb r.status 500) sized)
        | inr good ↦ elim (Bool-cases (resume_response_is_valid x.xfer.resume_offset r.status)) [
          | inr restart ↦ rw (good, restart) (refused-Ready d x resume_restart false sized)
          | inl valid ↦ elim (Bool-cases (is_content_type_mismatch r.content_type x.xfer.url)) [
            | inl page ↦ rw (good, valid, page) (refused-Ready d x html_page true sized)
            | inr binary ↦
                rw (good, valid, binary)
                  (v, sized, refl, (is_open, long, told, served (ground arith) valid binary), refl)
          ]
        ]
      ]

  -- A server's answer that is taken is what the file lacks.
  served-rest :
      (serve : Get → Option Response) (d : Disk) (x : Download) (r : Response)
      → IsHonest body serve
      → x.xfer.bytes_written ≡ 0
      → serve (get x.xfer) ≡ some r
      → r.status < 400
      → resume_response_is_valid x.xfer.resume_offset r.status ≡ true
      → is_content_type_mismatch r.content_type x.xfer.url ≡ false
      → r.body ≡ drop (count x) body
  unfolding get resume_response_is_valid
  served-rest serve d x r honest unwritten answer good valid binary =
      elim (Bool-cases (ltb 0 x.xfer.resume_offset)) [
        | inr fresh ↦
            let e : count x ≡ 0 = ground arith in
            honest.full (get x.xfer) r answer good binary (ground arith)
            ∙ ap (λ n. drop n body) (sym e)
        | inl resumed ↦
            let e : x.xfer.resume_offset ≡ count x = ground arith in
            honest.partial (get x.xfer) r x.xfer.resume_offset answer (ground arith) binary
              (ground arith)
            ∙ ap (λ n. drop n body) e
      ]

  pub start_transfer-Ready :
      (serve : Get → Option Response) (d : Disk) (x : Download)
      → IsHonest body serve
      → IsSound body d
      → Sized body x.xfer.file_size
      → IsOpen body d x
      → x.xfer.bytes_written ≡ 0
      → Ready (start_transfer serve d x)
  unfolding start_transfer
  start_transfer-Ready serve d x honest v sized opened unwritten =
      elim (Option-cases (serve (get x.xfer))) [
        | inl refused ↦ rw (refused, start_transfer) (record { disk = v; live = (sized, tt) })
        | inr (r, answer) ↦
            let served = served-rest serve d x r honest unwritten answer in
            rw (answer, start_transfer)
              (elim (Bool-cases (is_empty r.etag)) [
                | inl same ↦ rw same (answered-Ready d x r v sized opened served)
                | inr other ↦ rw other (
                    answered-Ready d (record x { xfer = record x.xfer { etag = r.etag } }) r v sized
                      opened served)
              ])
      ]
