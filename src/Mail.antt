-- ===== src/Mail.antt =====
-- The renderer of the mail and page templates (src/modules/mail/template.renderer.ts). A text is
-- the list of its code points; the files of the templates come in as their contents.
pub mod Escaping
pub mod Tokens
pub mod Conditionals
