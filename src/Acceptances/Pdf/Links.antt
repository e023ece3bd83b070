-- ===== src/Acceptances/Pdf/Links.antt =====
-- How the objects that `Render` of internal/acceptances/pdf.go makes refer to each other.
use tecora_be.Prelude.{ℕ, refl, inl, inr, List, [], ◌∷◌, ◌++◌, length}
use tecora_be.Text.{Text, codes}
use tecora_be.Text.Decimal.{decimal, decimal-Writes}
use tecora_be.Text.Utf8.{utf8}
use tecora_be.Acceptances.Pdf.Structure.{RefersTo, IsStream, IsPage, IsLinked}
use tecora_be.Acceptances.Pdf.Render.{
  file_objects, catalog_object, pages_object, page_object, page_resources, stream_object,
}

refers :
    (n : ℕ) (key : Text) (before after : List ℕ)
    → RefersTo (before ++ ((key ++ (decimal n ++ codes " 0 R")) ++ after)) key n
refers n key before after = (decimal n, decimal-Writes n, (before, after, refl))

stream_object-IsStream : (bytes : List ℕ) → IsStream (stream_object bytes) bytes
unfolding stream_object
stream_object-IsStream bytes = (decimal (length bytes), decimal-Writes (length bytes), refl)

-- The page up to its fonts.
abbrev page_start : ℕ → List ℕ
page_start parent =
    codes "<< /Type /Page /Parent "
    ++ (decimal parent ++ codes " 0 R /MediaBox [0 0 612 792] /Resources << /Font << ")

page_object-IsPage :
    (content : Text)
    → IsPage
        (file_objects content []).0
        (page_object 5 (utf8 (page_resources 1 2 0)) 3)
        5
        content
        []
unfolding file_objects page_object page_resources utf8 decimal
page_object-IsPage content = record {
  page_type = (codes "<< ", _, refl);
  parent = refers 5 (codes "/Parent ") (codes "<< /Type /Page ") _;
  content_number = 3;
  contents =
      refers 3 (codes "/Contents ")
        (codes
          "<< /Type /Page /Parent 5 0 R /MediaBox [0 0 612 792] /Resources << /Font << /F1 1 0 R /F2 2 0 R >> >> ")
        _;
  stream = stream_object (utf8 content);
  stream_there = refl;
  stream_bytes = stream_object-IsStream (utf8 content);
  regular = 1;
  regular_named = refers 1 (codes "/F1 ") (page_start 5) _;
  regular_there = refl;
  bold = 2;
  bold_named = refers 2 (codes "/F2 ") (page_start 5 ++ codes "/F1 1 0 R ") _;
  bold_there = refl;
  image_there = inl refl;
}

page_object-IsPage_image :
    (content : Text) (b : ℕ) (image : List ℕ)
    → IsPage
        (file_objects content (b ∷ image)).0
        (page_object 6 (utf8 (page_resources 1 2 3)) 4)
        6
        content
        (b ∷ image)
unfolding file_objects page_object page_resources utf8 decimal
page_object-IsPage_image content b image = record {
  page_type = (codes "<< ", _, refl);
  parent = refers 6 (codes "/Parent ") (codes "<< /Type /Page ") _;
  content_number = 4;
  contents =
      refers 4 (codes "/Contents ")
        (codes
          "<< /Type /Page /Parent 6 0 R /MediaBox [0 0 612 792] /Resources << /Font << /F1 1 0 R /F2 2 0 R >> /XObject << /Im1 3 0 R >> >> ")
        _;
  stream = stream_object (utf8 content);
  stream_there = refl;
  stream_bytes = stream_object-IsStream (utf8 content);
  regular = 1;
  regular_named = refers 1 (codes "/F1 ") (page_start 6) _;
  regular_there = refl;
  bold = 2;
  bold_named = refers 2 (codes "/F2 ") (page_start 6 ++ codes "/F1 1 0 R ") _;
  bold_there = refl;
  image_there = inr (
    3,
    refers 3 (codes "/XObject << /Im1 ") (page_start 6 ++ codes "/F1 1 0 R /F2 2 0 R >> ") _,
    refl,
  );
}

pub file_objects-IsLinked :
    (content : Text) (image : List ℕ)
    → IsLinked (file_objects content image).0 (file_objects content image).1 content image
unfolding file_objects pages_object catalog_object decimal
file_objects-IsLinked content [] = record {
  catalog = catalog_object 5;
  catalog_there = refl;
  catalog_type = (codes "<< ", _, refl);
  pages_number = 5;
  catalog_pages = refers 5 (codes "/Pages ") (codes "<< /Type /Catalog ") (codes " >>");
  pages = pages_object 4;
  pages_there = refl;
  pages_type = (codes "<< ", _, refl);
  pages_count = (codes "<< /Type /Pages /Kids [4 0 R] ", _, refl);
  page_number = 4;
  pages_kids = refers 4 (codes "/Kids [") (codes "<< /Type /Pages ") _;
  page = page_object 5 (utf8 (page_resources 1 2 0)) 3;
  page_there = refl;
  linked = page_object-IsPage content;
}
file_objects-IsLinked content (b ∷ image) = record {
  catalog = catalog_object 6;
  catalog_there = refl;
  catalog_type = (codes "<< ", _, refl);
  pages_number = 6;
  catalog_pages = refers 6 (codes "/Pages ") (codes "<< /Type /Catalog ") (codes " >>");
  pages = pages_object 5;
  pages_there = refl;
  pages_type = (codes "<< ", _, refl);
  pages_count = (codes "<< /Type /Pages /Kids [5 0 R] ", _, refl);
  page_number = 5;
  pages_kids = refers 5 (codes "/Kids [") (codes "<< /Type /Pages ") _;
  page = page_object 6 (utf8 (page_resources 1 2 3)) 4;
  page_there = refl;
  linked = page_object-IsPage_image content b image;
}
