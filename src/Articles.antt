-- ===== src/Articles.antt =====
-- app/features/articles: who may edit an article, its review workflow and the merge of proposals.
pub mod Workflow
pub mod Merge
pub mod Rows
pub mod Tree
pub mod Revisions
pub mod Writer
pub mod Crud
pub mod Rebase
pub mod Proposals
pub mod Slug
pub mod Slugify
mod Tests
