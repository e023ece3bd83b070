-- ===== src/Acceptances/Pdf/Offsets.antt =====
-- The file that `Render` of internal/acceptances/pdf.go writes, against the structure of a PDF file.
use mathlib.Core.List.{append_assoc, append-nil}
use tecora_be.Prelude.{ℕ, suc, ◌+◌, ◌≡◌, refl, sym, ap, ◌∙◌, List, [], ◌∷◌, ◌++◌, arith, length}
use tecora_be.Text.{Text, codes}
use tecora_be.Text.Decimal.{decimal, padded, length-padded, decimal-Writes, padded-Writes}
use tecora_be.Db.{AcceptanceRow, Result, ok, err}
use tecora_be.Acceptances.Model.{PdfDocument}
use tecora_be.Acceptances.Pdf.Signature.{Graphics}
use tecora_be.Acceptances.Pdf.Content.{build_pdf_content}
use tecora_be.Acceptances.Pdf.Structure.{
  StandsAt, IsObjectAt, AreEntries, trailer_text, IsIndexed, IsDocument,
}
use tecora_be.Acceptances.Pdf.Links.{file_objects-IsLinked}
use tecora_be.Acceptances.Pdf.Render.{
  file_objects, file_header, numbered_object, write_objects, xref_table, xref_entry, xref_entries,
  trailer, write_file, document_of, render,
}

StandsAt-append :
    (file bytes more : List ℕ) (offset : ℕ)
    → StandsAt file bytes offset
    → StandsAt (file ++ more) bytes offset
StandsAt-append file bytes more offset s = record {
  before = s.before;
  after = s.after ++ more;
  here =
      ap (λ f. f ++ more) s.here
      ∙ (append_assoc s.before (bytes ++ s.after) more
          ∙ ap (λ t. s.before ++ t) (append_assoc bytes s.after more));
  counted = s.counted;
}

AreEntries-append :
    (file more : List ℕ) (i : ℕ) (objects : List (List ℕ)) (lines : List ℕ)
    → AreEntries file i objects lines
    → AreEntries (file ++ more) i objects lines
AreEntries-append file more i [] lines h = h
AreEntries-append file more i (object ∷ objects) lines (entry, others, cut, e, rest) =
    let (number, number_read, stands) = e.there in
    (
      entry,
      others,
      cut,
      record {
        offset = e.offset;
        digits = e.digits;
        digits_read = e.digits_read;
        line = e.line;
        ten = e.ten;
        there = (number, number_read, StandsAt-append file _ more e.offset stands);
      },
      AreEntries-append file more (suc i) objects others rest,
    )

-- The file goes on from what was there before.
grows :
    (i : ℕ) (objects : List (List ℕ)) (out : List ℕ)
    → (after : List ℕ) × ((write_objects i objects out).1 ≡ out ++ after)
unfolding write_objects
grows i [] out = ([], sym (append-nil out))
grows i (object ∷ objects) out =
    let (after, e) = grows (suc i) objects (out ++ numbered_object i object) in
    (numbered_object i object ++ after, e ∙ append_assoc out (numbered_object i object) after)

numbered-IsObjectAt :
    (i : ℕ) (objects : List (List ℕ)) (object out : List ℕ)
    → IsObjectAt
        (write_objects (suc i) objects (out ++ numbered_object i object)).1
        i
        object
        (length out)
unfolding numbered_object
numbered-IsObjectAt i objects object out =
    let (after, e) = grows (suc i) objects (out ++ numbered_object i object) in
    (
      decimal i,
      decimal-Writes i,
      record {
        before = out;
        after = after;
        here = e ∙ append_assoc out (numbered_object i object) after;
        counted = refl;
      },
    )

write_objects-AreEntries :
    (i : ℕ) (objects : List (List ℕ)) (out : List ℕ)
    → AreEntries
        (write_objects i objects out).1
        i
        objects
        (xref_entries (write_objects i objects out).0)
unfolding write_objects xref_entries xref_entry
write_objects-AreEntries i [] out = refl
write_objects-AreEntries i (object ∷ objects) out =
    let next = write_objects (suc i) objects (out ++ numbered_object i object) in
    (
      xref_entry (length out),
      xref_entries next.0,
      refl,
      record {
        offset = length out;
        digits = padded 10 (length out);
        digits_read = padded-Writes 10 (length out);
        line = refl;
        ten = length-padded (length out);
        there = numbered-IsObjectAt i objects object out;
      },
      write_objects-AreEntries (suc i) objects (out ++ numbered_object i object),
    )

length-write_objects :
    (i : ℕ) (objects : List (List ℕ)) (out : List ℕ)
    → length (write_objects i objects out).0 ≡ length objects
unfolding write_objects
length-write_objects i [] out = refl
length-write_objects i (object ∷ objects) out =
    ap suc (length-write_objects (suc i) objects (out ++ numbered_object i object))

regroup :
    (a size b lines tail : List ℕ)
    → (a ++ (size ++ (b ++ (lines ++ [])))) ++ tail ≡ a ++ (size ++ (b ++ (lines ++ tail)))
regroup a size b lines tail =
    rw
      (
        append-nil lines,
        append_assoc a (size ++ (b ++ lines)) tail,
        append_assoc size (b ++ lines) tail,
        append_assoc b lines tail,
      )
      refl

trailer-text :
    (count root start : ℕ)
    → trailer count root start ≡ trailer_text (decimal (count + 1)) (decimal root) (decimal start)
unfolding trailer
trailer-text count root start = refl

table-whole :
    (offsets : List ℕ) (count root start : ℕ)
    → xref_table offsets ++ trailer count root start
      ≡ codes "xref\n0 "
        ++ (decimal (length offsets + 1)
            ++ (codes "\n0000000000 65535 f \n"
                ++ (xref_entries offsets
                    ++ trailer_text (decimal (count + 1)) (decimal root) (decimal start))))
unfolding xref_table
table-whole offsets count root start =
    ap (λ t. xref_table offsets ++ t) (trailer-text count root start)
    ∙ regroup (codes "xref\n0 ") (decimal (length offsets + 1)) (codes "\n0000000000 65535 f \n")
        (xref_entries offsets) (trailer_text (decimal (count + 1)) (decimal root) (decimal start))

write_file-IsIndexed :
    (objects : List (List ℕ)) (root : ℕ) → IsIndexed (write_file (objects, root)) objects root
unfolding write_file
write_file-IsIndexed objects root =
    let (offsets, out) = write_objects 1 objects file_header in
    let (after, e) = grows 1 objects file_header in
    let tail = xref_table offsets ++ trailer (length objects) root (length out) in
    record {
      marked = (_, ap (λ f. f ++ tail) e);
      body = out;
      lines = xref_entries offsets;
      entries =
          AreEntries-append out tail 1 objects (xref_entries offsets)
            (write_objects-AreEntries 1 objects file_header);
      table_size = decimal (length offsets + 1);
      table_size_read =
          rw (length-write_objects 1 objects file_header) (decimal-Writes (length objects + 1));
      size = decimal (length objects + 1);
      size_read = decimal-Writes (length objects + 1);
      root_number = decimal root;
      root_read = decimal-Writes root;
      start = decimal (length out);
      start_read = decimal-Writes (length out);
      whole = ap (λ t. out ++ t) (table-whole offsets (length objects) root (length out));
    }

document_of-IsDocument :
    (built : Result (Text × List ℕ)) (doc : PdfDocument)
    → document_of built ≡ ok doc
    → (b : Text × List ℕ) × (built ≡ ok b) × IsDocument b doc.bytes
document_of-IsDocument (err e) doc h = cc
document_of-IsDocument (ok (content, image)) doc h =
    let (objects, root) = file_objects content image in
    let same : write_file (objects, root) ≡ doc.bytes = ground arith in
    (
      (content, image),
      refl,
      (
        objects,
        root,
        rw (← same) (write_file-IsIndexed objects root),
        file_objects-IsLinked content image,
      ),
    )

-- A rendered document is a PDF file that can be followed from its end: behind "startxref" stands the
-- offset of the table, which counts its lines and has for each object, in the order of the numbers, the
-- offset at which the object stands under its number (in ten digits below ten billion); the trailer
-- gives the number of lines and the root, which is the catalog; it refers to the pages, these to the
-- one page, and this to the stream of the content that `buildPDFContent` makes, written with its
-- length, to the fonts Helvetica and Helvetica-Bold, and to the image, if there is one.
pub render-IsDocument :
    (go : Graphics) (r : AcceptanceRow) (doc : PdfDocument)
    → render go r ≡ ok doc
    → (b : Text × List ℕ) × (build_pdf_content go r ≡ ok b) × IsDocument b doc.bytes
unfolding render
render-IsDocument go r doc h = document_of-IsDocument (build_pdf_content go r) doc h
