-- ===== src/Page.antt =====
-- The logic of the frontend's pages, apart from what they draw: the recipient's dashboard
-- (frontend/app/stream/[id]/page.tsx), the audit page (frontend/app/verify/[id]/page.tsx), the landing
-- page (frontend/app/page.tsx) and the employer's page (frontend/app/app/page.tsx).
pub mod Dashboard
pub mod Verify
pub mod Landing
pub mod Employer
pub mod Sends
pub mod Shown
mod Tests
