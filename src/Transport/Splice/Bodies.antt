-- ===== src/Transport/Splice/Bodies.antt =====
-- crates/updater/src/transport/download.rs: what is read of a body goes on where the file ends.
use retrovert.Common.{
  ℕ, ◌+◌, ◌<◌, ◌≡◌, refl, sym, ◌∙◌, ap, subst, Bool, true, false, Option, none, some, List, [], ◌∷◌,
  ◌++◌, inl, inr, arith, length, length-append, Option-cases,
}
use retrovert.Common.Slices.{
  take, drop, Begins, drop-drop, drop-length-take, length-drop-nil, take-Begins, take-take-Begins,
  Begins-append, Begins-length-le,
}
use retrovert.Queue.Transport.{Status}
use retrovert.Transport.Meta.{Meta, i64_limit, pack_etag}
use retrovert.Transport.Download.{Disk, Download, Write, whole, cut, refused, Io, read_meta}
use retrovert.Transport.Reading.{
  append, write_all, wrote, read_size, read_body, finalize_complete, finished,
}
use retrovert.Transport.Session.{after_read}
use retrovert.Transport.Splice.{
  IsPrefix, Claims, IsSound, Sized, HasLength, HasRest, IsOpen, IsKept, count,
}
use retrovert.Transport.Splice.Entries.{write_meta-IsSound, write_meta-file}

-- The file of an entry of which the length is known.
pub HasLength-some :
    (n : ℕ) (o : Option (List ℕ)) → HasLength n o → (f : List ℕ) × (o ≡ some f) × (length f ≡ n)
HasLength-some n none h = absurd h
HasLength-some n (some f) h = (f, refl, h)

module _ (body : List ℕ) where
  append-Claims :
      (f bytes : List ℕ) (m : Option Meta)
      → Claims body (some f) m
      → Claims body (some (f ++ bytes)) m
  append-Claims f bytes none h = tt
  append-Claims f bytes (some m) h = λ e. omega (arith, h e, length-append f bytes)

  append-IsSound :
      (d : Disk) (f bytes : List ℕ)
      → IsSound body d
      → d.file ≡ some f
      → Begins bytes (drop (length f) body)
      → IsSound body (append d bytes)
  unfolding read_meta
  append-IsSound d f bytes v there goes_on = record {
    total = v.total;
    prefix = rw there (Begins-append f bytes body (subst (IsPrefix body) there v.prefix) goes_on);
    claims = rw there (
        append-Claims f bytes (read_meta d)
          (subst (λ o. Claims body o (read_meta d)) there v.claims));
  }

  -- Where the write fails, what was written of the bytes still goes on with the body.
  write_all-IsSound :
      (d : Disk) (is_open : Bool) (f rest : List ℕ) (n : ℕ) (w : Write)
      → IsSound body d
      → d.file ≡ some f
      → rest ≡ drop (length f) body
      → IsSound body (write_all d is_open (take n rest) w).0
  unfolding write_all
  write_all-IsSound d false f rest n w v there same = v
  write_all-IsSound d true f rest n whole v there same =
      append-IsSound d f (take n rest) v there (rw same (take-Begins n (drop (length f) body)))
  write_all-IsSound d true f rest n (cut k) v there same =
      append-IsSound d f (take k (take n rest)) v there
        (rw same (take-take-Begins k n (drop (length f) body)))
  write_all-IsSound d true f rest n refused v there same = v

  reading-on :
      (x : Download) (n : ℕ) (rest : List ℕ)
      → rest ≡ drop (count x) body
      → drop n rest
        ≡ drop (x.xfer.resume_offset + (x.xfer.bytes_written + length (take n rest))) body
  reading-on x n rest same =
      let bytes = take n rest in
      let sum : count x + length bytes
          ≡ x.xfer.resume_offset + (x.xfer.bytes_written + length bytes) =
        omega arith in
      sym (drop-length-take n rest)
      ∙ ap (drop (length bytes)) same
      ∙ drop-drop (length bytes) (count x) body
      ∙ ap (λ k. drop k body) sum

  -- What was read is written to the end of the file, and counted.
  wrote-IsKept :
      (d : Disk) (x : Download) (f rest : List ℕ) (n : ℕ) (w : Write)
      → IsSound body d
      → Sized body x.xfer.file_size
      → x.status ≡ Status.downloading
      → x.xfer.started ≡ true
      → x.xfer.file_open ≡ true
      → d.file ≡ some f
      → length f ≡ count x
      → rest ≡ drop (count x) body
      → IsKept body (
          after_read
            (wrote x (take n rest) (drop n rest) (write_all d x.xfer.file_open (take n rest) w)))
  unfolding write_all
  wrote-IsKept d x f rest n whole v sized going begun is_open there counted same =
      let bytes = take n rest in
      let same_rest : rest ≡ drop (length f) body = rw counted same in
      rw is_open (record {
        disk = write_all-IsSound d true f rest n whole v there same_rest;
        live = (
          sized,
          rw going (
            (
              refl,
              rw there (omega (arith, counted, length-append f bytes)),
              omega arith,
              reading-on x n rest same,
            ),
            begun,
          ),
        );
      })
  wrote-IsKept d x f rest n (cut k) v sized going begun is_open there counted same =
      let same_rest : rest ≡ drop (length f) body = rw counted same in
      rw is_open (record {
        disk = write_all-IsSound d true f rest n (cut k) v there same_rest;
        live = (sized, tt);
      })
  wrote-IsKept d x f rest n refused v sized going begun is_open there counted same =
      rw is_open (record { disk = v; live = (sized, tt) })

  finalize_complete-IsKept :
      (small : length body < i64_limit) (d : Disk) (x : Download) (f : List ℕ) (w : Write)
      → IsSound body d
      → Sized body x.xfer.file_size
      → d.file ≡ some f
      → length f ≡ count x
      → drop (count x) body ≡ []
      → IsKept body (after_read (finished (finalize_complete d x w)))
  unfolding finalize_complete
  finalize_complete-IsKept small d x f w v sized there counted over =
      let whole_body = length-drop-nil (count x) body over in
      let short = Begins-length-le f body (subst (IsPrefix body) there v.prefix) in
      let m : Meta = record {
        file_size = count x;
        bytes_written = count x;
        etag = pack_etag x.xfer.etag;
      } in
      record {
        disk =
            write_meta-IsSound body small d m f x.xfer.etag w v there (omega arith) (sym counted)
              refl;
        live = (sized, rw (write_meta-file d m w ∙ there) (omega arith));
      }

  read_some-IsKept :
      (small : length body < i64_limit) (d : Disk) (x : Download) (buf n : ℕ) (io : Io)
      (f rest : List ℕ)
      → IsSound body d
      → Sized body x.xfer.file_size
      → x.status ≡ Status.downloading
      → x.xfer.started ≡ true
      → x.xfer.file_open ≡ true
      → d.file ≡ some f
      → length f ≡ count x
      → rest ≡ drop (count x) body
      → x.xfer.reader ≡ some rest
      → io.read_len ≡ some n
      → IsKept body (after_read (read_body d x buf io))
  unfolding read_body
  read_some-IsKept small d x buf n io f [] v sized going begun is_open there counted same left
        reads =
      rw left (
        rw reads (
          finalize_complete-IsKept small d (record x { xfer = record x.xfer { reader = some [] } })
            f io.sidecar_write v sized there counted (sym same)))
  read_some-IsKept small d x buf n io f (b ∷ bs) v sized going begun is_open there counted same left
        reads =
      rw left (
        rw reads (
          wrote-IsKept d (record x { xfer = record x.xfer { reader = some (b ∷ bs) } }) f (b ∷ bs)
            (read_size buf n) io.file_write v sized going begun is_open there counted same))

  -- One read of the body, whatever it gives.
  pub read_body-IsKept :
      (small : length body < i64_limit) (d : Disk) (x : Download) (buf : ℕ) (io : Io)
      → IsSound body d
      → Sized body x.xfer.file_size
      → x.status ≡ Status.downloading
      → x.xfer.started ≡ true
      → IsOpen body d x
      → IsKept body (after_read (read_body d x buf io))
  unfolding read_body
  read_body-IsKept small d x buf io v sized going begun (is_open, long, told, rest_ok) =
      let (f, there, counted) = HasLength-some (count x) d.file long in
      elim (Option-cases x.xfer.reader) [
        | inl unread ↦
            rw unread
              (record { disk = v; live = (sized, rw going ((is_open, long, told, tt), begun)) })
        | inr (rest, left) ↦
            let same : rest ≡ drop (count x) body = subst (HasRest body x) left rest_ok in
            elim (Option-cases io.read_len) [
              | inl broken ↦ rw left (rw broken (record { disk = v; live = (sized, tt) }))
              | inr (n, reads) ↦
                  read_some-IsKept small d x buf n io f rest v sized going begun is_open there
                    counted same left reads
            ]
      ]
