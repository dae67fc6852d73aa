-- ===== src/Corpus.antt =====
-- cl/cdaccess.c: structural and alignment attributes of a corpus.
pub mod Search
pub mod Struc
pub mod Regions
pub mod Found
pub mod StrucLaws
pub mod StrucErrors
pub mod Tests
pub mod Align
pub mod AlignLaws
