-- ===== src/Acceptances/Pdf/Structure.antt =====
-- The structure of a PDF file with one page (ISO 32000, 7.5 and 7.7), which `Render` of
-- internal/acceptances/pdf.go is to write.
use tecora_be.Prelude.{
  ℕ, suc, ◌+◌, ◌-◌, ◌<◌, ◌^◌, ◌≡◌, ◌⊎◌, List, [], ◌∷◌, ◌++◌, length, Option, some, get_elem?,
}
use tecora_be.Text.{Text, codes}
use tecora_be.Text.Decimal.{Writes}
use tecora_be.Text.Utf8.{utf8}

-- The bytes stand at the offset of the file.
pub record StandsAt (file bytes : List ℕ) (offset : ℕ) : Type 0 where
  pub before : List ℕ
  pub after : List ℕ
  pub here : file ≡ before ++ (bytes ++ after)
  pub counted : length before ≡ offset

-- The object stands at the offset, between its number and the word that ends it.
abbrev pub IsObjectAt : List ℕ → ℕ → List ℕ → ℕ → Type 0
IsObjectAt file i object offset =
    (number : Text) × Writes number i
    × StandsAt file (number ++ (codes " 0 obj\n" ++ (object ++ codes "\nendobj\n"))) offset

-- A line of the table: the offset of the object, in ten digits while it is below ten billion.
pub record IsEntry (file : List ℕ) (i : ℕ) (object entry : List ℕ) : Type 0 where
  pub offset : ℕ
  pub digits : Text
  pub digits_read : Writes digits offset
  pub line : entry ≡ digits ++ codes " 00000 n \n"
  pub ten : offset < 10 ^ 10 → length digits ≡ 10
  pub there : IsObjectAt file i object offset

-- The lines of the table, one for each object, in the order of their numbers from `i` on.
abbrev pub AreEntries : List ℕ → ℕ → List (List ℕ) → List ℕ → Type 0
AreEntries file i [] lines = lines ≡ []
AreEntries file i (object ∷ objects) lines =
    (entry : List ℕ) × (others : List ℕ) × (lines ≡ entry ++ others)
    × IsEntry file i object entry
    × AreEntries file (suc i) objects others

-- What stands behind the table: the number of its lines, the root, and where the table begins.
abbrev pub trailer_text : Text → Text → Text → List ℕ
trailer_text size root start =
    codes "trailer\n<< /Size "
    ++ (size
        ++ (codes " /Root "
            ++ (root ++ (codes " 0 R >>\nstartxref\n" ++ (start ++ codes "\n%%EOF")))))

-- A file that ends with the table of its objects; the free object 0 counts in its size.
pub record IsIndexed (file : List ℕ) (objects : List (List ℕ)) (root : ℕ) : Type 0 where
  pub marked : (after : List ℕ) × (file ≡ codes "%PDF-1.4\n" ++ after)
  pub body : List ℕ
  pub lines : List ℕ
  pub entries : AreEntries file 1 objects lines
  pub table_size : Text
  pub table_size_read : Writes table_size (length objects + 1)
  pub size : Text
  pub size_read : Writes size (length objects + 1)
  pub root_number : Text
  pub root_read : Writes root_number root
  pub start : Text
  pub start_read : Writes start (length body)
  pub whole :
      file
      ≡ body
        ++ (codes "xref\n0 "
            ++ (table_size
                ++ (codes "\n0000000000 65535 f \n"
                    ++ (lines ++ trailer_text size root_number start))))

-- The object with a number.
abbrev pub object_of : List (List ℕ) → ℕ → Option (List ℕ)
object_of objects i = get_elem? objects (i - 1)

-- The text stands in the object.
abbrev pub Says : List ℕ → Text → Type 0
Says object text = (before : List ℕ) × (after : List ℕ) × (object ≡ before ++ (text ++ after))

-- Behind the key stands a reference to the object with the number.
abbrev pub RefersTo : List ℕ → Text → ℕ → Type 0
RefersTo object key n =
    (digits : Text) × Writes digits n × Says object (key ++ (digits ++ codes " 0 R"))

-- A stream with these bytes, and their number in front.
abbrev pub IsStream : List ℕ → List ℕ → Type 0
IsStream object bytes =
    (digits : Text) × Writes digits (length bytes)
    × (object
        ≡ codes "<< /Length "
          ++ (digits ++ (codes " >>\nstream\n" ++ (bytes ++ codes "endstream"))))

-- A standard font with this name.
abbrev pub IsFont : List (List ℕ) → ℕ → Text → Type 0
IsFont objects n name =
    object_of objects n ≡ some (codes "<< /Type /Font /Subtype /Type1 /BaseFont /" ++ name)

-- The page refers to its pages, to its content, to its two fonts and to the image, if there is one.
pub record IsPage (objects : List (List ℕ)) (page : List ℕ) (pages_number : ℕ) (content : Text)
    (image : List ℕ) : Type 0 where
  pub page_type : Says page (codes "/Type /Page ")
  pub parent : RefersTo page (codes "/Parent ") pages_number
  pub content_number : ℕ
  pub contents : RefersTo page (codes "/Contents ") content_number
  pub stream : List ℕ
  pub stream_there : object_of objects content_number ≡ some stream
  pub stream_bytes : IsStream stream (utf8 content)
  pub regular : ℕ
  pub regular_named : RefersTo page (codes "/F1 ") regular
  pub regular_there : IsFont objects regular (codes "Helvetica >>")
  pub bold : ℕ
  pub bold_named : RefersTo page (codes "/F2 ") bold
  pub bold_there : IsFont objects bold (codes "Helvetica-Bold >>")
  pub image_there :
      (image ≡ [])
      ⊎ ((n : ℕ) × RefersTo page (codes "/XObject << /Im1 ") n × (object_of objects n ≡ some image))

-- The root is the catalog, which refers to the pages, and these to the one page.
pub record IsLinked (objects : List (List ℕ)) (root : ℕ) (content : Text) (image : List ℕ)
    : Type 0 where
  pub catalog : List ℕ
  pub catalog_there : object_of objects root ≡ some catalog
  pub catalog_type : Says catalog (codes "/Type /Catalog ")
  pub pages_number : ℕ
  pub catalog_pages : RefersTo catalog (codes "/Pages ") pages_number
  pub pages : List ℕ
  pub pages_there : object_of objects pages_number ≡ some pages
  pub pages_type : Says pages (codes "/Type /Pages ")
  pub pages_count : Says pages (codes "/Count 1 ")
  pub page_number : ℕ
  pub pages_kids : RefersTo pages (codes "/Kids [") page_number
  pub page : List ℕ
  pub page_there : object_of objects page_number ≡ some page
  pub linked : IsPage objects page pages_number content image

-- A file with this content and this image on its page.
abbrev pub IsDocument : Text × List ℕ → List ℕ → Type 0
IsDocument (content, image) file =
    (objects : List (List ℕ)) × (root : ℕ) × IsIndexed file objects root
    × IsLinked objects root content image
