-- ===== src/Discord/Assembly/Sending.antt =====
-- What BuildMessageOp of internal/discord/message.go assembles.

use luars_stoatcord.Prelude.{
  ℕ, zero, suc, ◌≡◌, ◌≢◌, ◌≤◌, refl, ap, ◌⊎◌, inl, inr, String, true, false, Option, none, some,
  List, [], ◌∷◌, length, length-append, arith, Bool-cases, eq_iff,
}
use luars_stoatcord.Engine.Op.{OpKind}
use luars_stoatcord.Discord.Translation.{DiscordRole}
use luars_stoatcord.Discord.Assembly.{
  DiscordUser, DiscordMessage, Assembly, skipped, panicked, assembled, capped, is_create, no_urls,
  nothing_to_send, gif_taken, message_of, author_display, content_of, assemble_by, assemble,
}

-- No content and, for a create, no attachment.
abbrev pub Nothing : OpKind → DiscordMessage → Type 0
Nothing kind m = (m.content ≡ "") × ((is_create kind ≡ false) ⊎ (m.attachment_urls ≡ []))

-- Skipped only if there is nothing to send, and a panic only if there is something and no author.
-- What is assembled has an author and at most five attachments; that of an edit has the content of
-- the event, which is not empty.
abbrev pub Sendable : OpKind → DiscordMessage → Assembly → Type 0
Sendable kind m skipped = Nothing kind m
Sendable kind m panicked = (¬ Nothing kind m) × (m.author ≡ none)
Sendable kind m (assembled r) =
    (¬ Nothing kind m)
    × ((u : DiscordUser) × (m.author ≡ some u))
    × (length r.attachment_refs ≤ 5)
    × ((is_create kind ≡ true) ⊎ ((r.content ≡ m.content) × (r.content ≢ "")))

length-capped : (n : ℕ) (urls : List String) → length (capped n urls) ≤ n
unfolding capped
length-capped zero urls = omega arith
length-capped (suc n) [] = omega arith
length-capped (suc n) (url ∷ urls) = omega (arith, length-capped n urls)

length-gif_taken :
    (find_gif : String → String) (content : String) (refs : List String)
    → length refs ≤ 5
    → length (gif_taken find_gif content refs).1 ≤ 5
unfolding gif_taken
length-gif_taken find_gif content refs h =
    ground (arith, length-append refs (find_gif content ∷ []))

nothing_to_send_lem :
    (kind : OpKind) (m : DiscordMessage) → nothing_to_send kind m ≡ true → Nothing kind m
nothing_to_send_lem kind m h = ground (arith, eq_iff m.content "")

something_to_send_lem :
    (kind : OpKind) (m : DiscordMessage) → nothing_to_send kind m ≡ false → ¬ Nothing kind m
something_to_send_lem kind m h (e, inl k) = ground (arith, eq_iff m.content "")
something_to_send_lem kind m h (e, inr k) = ground (arith, eq_iff m.content "", ap no_urls k)

module _ (default_reference : ℕ) (find_gif : String → String) (kind : OpKind)
    (find_role : String → Option DiscordRole) (m : DiscordMessage) where
  assembled_lem :
      (u : DiscordUser)
      → nothing_to_send kind m ≡ false
      → let r =
          message_of default_reference find_gif m
            (author_display find_role u m.member)
            (content_of find_gif kind m.content (capped 5 m.attachment_urls)) in
        (length r.attachment_refs ≤ 5)
        × ((is_create kind ≡ true) ⊎ ((r.content ≡ m.content) × (r.content ≢ "")))
  assembled_lem u h = elim (Bool-cases (is_create kind)) [
    | inl e ↦
        rw e
          (length-gif_taken find_gif m.content urls (length-capped 5 m.attachment_urls), inl refl)
    | inr e ↦ rw e (
      length-capped 5 m.attachment_urls,
      inr (refl, λ empty. ground (arith, eq_iff m.content "")),
    )
  ]
    where
      urls : List String
      urls = capped 5 m.attachment_urls

  assemble_by-Sendable :
      (o : Option DiscordUser)
      → m.author ≡ o
      → nothing_to_send kind m ≡ false
      → Sendable kind m (assemble_by default_reference find_gif kind find_role m o)
  assemble_by-Sendable none a h = (something_to_send_lem kind m h, a)
  assemble_by-Sendable (some u) a h =
      let (l, k) = assembled_lem u h in (something_to_send_lem kind m h, (u, a), l, k)

  -- BuildMessageOp skips a message exactly if it has no content and, for a create, no attachment; of
  -- the others it dereferences a nil Author exactly if there is none. Else it assembles a message with
  -- at most five attachments; that of an edit has the content of the event, which is not empty.
  pub assemble-Sendable : Sendable kind m (assemble default_reference find_gif kind find_role m)
  unfolding assemble
  assemble-Sendable = elim (Bool-cases (nothing_to_send kind m)) [
    | inl e ↦ rw e (nothing_to_send_lem kind m e)
    | inr e ↦ rw e (assemble_by-Sendable m.author refl e)
  ]
