-- ===== src/Acceptances/Pdf.antt =====
-- internal/acceptances/pdf.go
pub mod Fixed
pub mod Words
pub mod Draw
pub mod Boxes
pub mod Signature
pub mod Content
pub mod Render
pub mod Literals
pub mod Wrapping
pub mod Structure
pub mod Links
pub mod Offsets
pub mod Notes
pub mod DataUrl
pub mod Readable
mod Tests
