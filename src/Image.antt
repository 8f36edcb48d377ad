-- ===== src/Image.antt =====
-- thunder_sandbox/image.py: the definition of an image and the files of its build context.
pub mod Definition
pub mod Ignore
pub mod Context
pub mod Archive
