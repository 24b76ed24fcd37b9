-- ===== src/Lib.antt =====
-- The authorization platform: a business case is prepared inside, filled in and signed by the
-- customer through a public link, reviewed item by item, and finalized as a PDF that a worker
-- renders.
--
-- The parts and their files:
--
-- - Model: the data. Model/Status has the enumerations of packages/contracts/src/enums.ts and
--   prisma/schema.prisma, Model/Rows one record for each table's row, and Model/Db the tables
--   together with the writes that all services share (`append_audit` is `AuditWriter.append`).
-- - Links: public links. Links/Access is apps/api/src/cases/token.service.ts (`resolve`, `create`,
--   `regenerate`, `consume`, `disable`), Links/Operations the link operations of
--   apps/api/src/cases/case.service.ts (`submit_draft`, `replace_link`, `regenerate_link`,
--   `renew_link`, `disable_case_link`, `close`). Proofs: Links/Resolution, Links/Rotation,
--   Links/SingleOpen.
-- - Drafts: Drafts/Content is apps/api/src/cases/presign-canonical.ts, Drafts/Save `savePublicDraft`
--   with `assertSupplementOnlyTx`, and Drafts/Submit `submitPublic` of case.service.ts. A draft comes
--   in through a link that Links resolves, and a submission consumes it. Proofs: Drafts/Saved,
--   Drafts/Guards, Drafts/Checked, Drafts/Submitted.
-- - Review: apps/api/src/review/review.service.ts. Review/Assignment has `claim` and `assign`,
--   Review/Items `reviewItem`, Review/Confirm `confirm`, which asks for a supplement through a new
--   link or queues the PDF task, and Review/Messages the rejection messages. Proofs: Review/Ledger,
--   Review/Verdict, and beside the definitions.
-- - Pdf: Pdf/Jobs and Pdf/Complete are apps/worker/src/pdf/pdf-job.repository.ts (`claim_job`,
--   `journal_pending`, `fail_job`, `complete_job`), Pdf/Retry is
--   apps/api/src/pdf/pdf-retry.service.ts. Proofs: Pdf/Parts, Pdf/Lease, Pdf/Attempts, Pdf/Requeue.
-- - Files: Files/Capacity is apps/api/src/files/evidence-capacity.ts. Files/Incoming and Files/Uploads
--   are the uploads and reads of apps/api/src/files/file.service.ts, with proofs in Files/Bounds,
--   Files/Within, Files/Placed and Files/Steps; Files/Removal has its removals, with their proof in
--   Files/Removed, and Files/Gate the rate gates of
--   apps/api/src/files/public-upload-gate.ts and of `acquirePreviewRender`.
-- - Cases: Cases/Transactions is apps/api/src/database/repositories/transaction.ts, and
--   Cases/Repository and Cases/Evidence are `CaseRepository` of case.repository.ts beside it. Proofs:
--   Cases/Laws. Cases/Selection is `resolveTemplate` and `resolveRequirements` of case.service.ts, and
--   Cases/Open its `create`, with the proof in Cases/Opened.
-- - Auth: Auth/Abilities is apps/api/src/auth/ability.service.ts with the check of ability.guard.ts;
--   the proof is in Auth/Grants. Auth/Identity is apps/api/src/auth/auth.service.ts, with its proof in
--   Auth/Revoked.
-- - Catalog: Catalog/Versions is the life cycle of the versions in
--   apps/api/src/database/repositories/catalog-version.repository.ts; the proof is in
--   Catalog/Immutable. Catalog/Editor is `parseTemplate`, `validateEditor` and `saveDraft` of
--   apps/api/src/templates/templates.service.ts, with its proof in Catalog/Accepted.
-- - Storage: packages/storage/src/file-policy.ts. Storage/Policy has the limits and the check of names
--   and sizes, Storage/Content the check of contents with its proof.
-- - Templates: Templates/Tree is packages/contracts/src/template.ts, Templates/Definition
--   packages/contracts/src/requirement.ts, and Templates/Validator
--   apps/api/src/templates/template-publish.validator.ts, which uses both. Templates/Slots is
--   `signatureSlots` of case.service.ts. Proofs: Templates/Visited, Templates/Published.
--   Templates/Semantics is `validateSemantics` of apps/api/src/requirements/requirements.service.ts,
--   with its proof in Templates/Consistent.
-- - Signing: Signing/Command is apps/api/src/files/file-policy.ts, whose commands are checked against
--   the slots of a template, and Signing/Prepare `prepareOrdinarySigning` of case.service.ts. Proofs:
--   Signing/Placed and, up to the submission in Drafts, Drafts/Accepted, Signing/Signed,
--   Signing/Submittable and Signing/Completed. Signing/Cache and Signing/Preview are
--   `createPresignPreview` and `validPresignCache` of case.service.ts. Proofs: Signing/Retired,
--   Signing/Cached, Signing/Reused.
-- - Base: tables as lists with the queries that Prisma is asked for, failures, and their lemmas.
-- - Tests: runs at concrete inputs.
--
-- How the code is modelled:
--
-- - A table is the list of its rows, the newest first; `cases` is a function from keys. `find` is
--   `findFirst` and `findUnique`, `find_latest` the first in descending version order, `update_where`
--   is `updateMany`, and `count` the number that it reports. The unique columns that the operations
--   write (a link's identifier and hash, a file's identifier and storage key) are checked where rows
--   are created; a theorem that needs a key of an older row names it as a hypothesis.
-- - An operation is a function from the tables to `Result`; `err` is an exception, whose transaction
--   is rolled back. Two transactions of one request take two states, so that anything may have
--   happened in between. Row locks and retries of serializable transactions have no effect in such a
--   model (the retry loop is modelled by itself in Cases/Transactions). The clock is read once for
--   each transaction.
-- - Identifiers, tokens, hashes and JSON values are numbers, which the code compares for equality
--   (files are also sorted by them). Times are in milliseconds. Tokens, identifiers and leases that
--   the code draws at random are arguments, and so is SHA-256: `digest` hashes a token, `digest_of`
--   the input of the content digest, and `stored` the bytes under a storage key. No theorem assumes
--   anything of them.
-- - A text is the list of its UTF-16 code units and a file the list of its bytes. Lengths in a template
--   are whole points, and the coordinates that a signing is checked against whole numbers of a unit that
--   may be smaller, whose sums are exact; a JSON value of the wrong shape is `none` where
--   the code tells it apart.
-- - Every recursion is structural, on a list of rows or of events, or on the attempts that are left of
--   a retry loop; no function can run out of fuel.
--
-- Not modelled: the details of audit rows and the texts of messages; request parsing and
-- controllers; the user interfaces; rendering and storage on disk; the snapshot that the worker loads
-- after a claim; the finalization of a delivered PDF; the payload of a signing and the sharing of a render
-- between requests that wait for it; the writes of a new requirement or template.
--
-- Where the code and the documents differ. The model follows the code.
--
-- - docs/superpowers/specs/2026-08-05-authorization-platform-design.md, line 103, and the Chinese UI
--   design beside it, line 73, have the customer supplement through the original link, which dies when
--   everything is complete. In the code every submission consumes its link, a confirmation with a
--   rejected item disables the links of the case, and the supplement goes through a new one.
--   docs/acceptance/security-risk-register.md, line 7, does count a consumed link as unavailable.
-- - Line 80 of the platform design has a renewal change the deadline only. In the code `renewLink` is
--   `replaceLink`: the old token is refused and a new one is given out.
-- - Lines 128 and 284 of the platform design keep the items that were not rejected read only. In the
--   code a save during a supplement may leave their answers out, and the new draft then lacks them; its
--   materials and file versions are not compared at all.
pub mod Base
pub mod Model
pub mod Links
pub mod Review
pub mod Storage
pub mod Files
pub mod Pdf
pub mod Signing
pub mod Drafts
pub mod Cases
pub mod Auth
pub mod Templates
pub mod Catalog
pub mod Tests
