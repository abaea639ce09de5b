-- ===== src/Templates/Starters.antt =====
-- backend/app/services/templates_data.py.
use enterprise_document_inte.Base.{List, [], ◌∷◌, Text, codes}

pub record TemplateObjection : Type 0 where
  pub label : Text
  pub prompt : Text
  pub segments : List Text

pub record Template : Type 0 where
  pub key : Text
  pub name : Text
  pub description : Text
  pub segments : List Text
  pub ramp_topics : List (Text × Text)
  pub objections : List TemplateObjection

abbrev pub b2b_saas : Template
b2b_saas = record {
  key = codes "b2b_saas";
  name = codes "B2B SaaS Sales";
  description =
      codes
        "Segments, ramp checklist, and an objection library for a horizontal B2B SaaS team selling to Enterprise and SMB buyers.";
  segments = codes "Enterprise" ∷ codes "Mid-Market" ∷ codes "SMB" ∷ [];
  ramp_topics =
      (
        codes "Product overview",
        codes "What does our product do and what core problem does it solve?",
      )
      ∷ (codes "Pricing & packaging", codes "How is our product priced and packaged?")
      ∷ (codes "Ideal customer profile", codes "Who is our ICP and which segments do we sell to?")
      ∷ (codes "Competitive positioning", codes "How do we position against our main competitors?")
      ∷ (
        codes "Discovery questions",
        codes "What discovery questions should I ask on a first call?",
      )
      ∷ (
        codes "Demo flow",
        codes "What is the recommended demo flow and which features matter most?",
      )
      ∷ (
        codes "Security & compliance",
        codes "What security and compliance assurances can I share?",
      )
      ∷ [];
  objections =
      (record {
        label = codes "Too expensive";
        prompt = codes "How do I handle the objection that our product is too expensive?";
        segments = codes "Enterprise" ∷ codes "Mid-Market" ∷ codes "SMB" ∷ [];
      })
      ∷ (record {
        label = codes "Already using a competitor";
        prompt = codes "How do I handle a prospect who is already using a competitor?";
        segments = codes "Enterprise" ∷ codes "Mid-Market" ∷ [];
      })
      ∷ (record {
        label = codes "No budget right now";
        prompt = codes "How do I handle 'we have no budget right now'?";
        segments = codes "SMB" ∷ codes "Mid-Market" ∷ [];
      })
      ∷ (record {
        label = codes "Need to involve security/IT";
        prompt = codes "How do I handle a deal that stalls on a security or IT review?";
        segments = codes "Enterprise" ∷ [];
      })
      ∷ (record {
        label = codes "Happy with the status quo";
        prompt = codes "How do I handle a prospect who says they're happy with the status quo?";
        segments = codes "Enterprise" ∷ codes "Mid-Market" ∷ codes "SMB" ∷ [];
      })
      ∷ [];
}

abbrev pub smb_focused : Template
smb_focused = record {
  key = codes "smb_velocity";
  name = codes "SMB High-Velocity";
  description =
      codes
        "A lean template for a high-velocity SMB motion: one segment, a short ramp checklist, and the objections that come up most in fast self-serve-adjacent deals.";
  segments = codes "SMB" ∷ [];
  ramp_topics =
      (codes "Product in one sentence", codes "How do I describe our product in one sentence?")
      ∷ (codes "Pricing", codes "What are our plans and prices?")
      ∷ (codes "Top use cases", codes "What are the top use cases buyers adopt us for?")
      ∷ (
        codes "Fast objection handling",
        codes "What are the most common objections and quick responses?",
      )
      ∷ [];
  objections =
      (record {
        label = codes "Too expensive";
        prompt = codes "How do I handle 'it's too expensive'?";
        segments = codes "SMB" ∷ [];
      })
      ∷ (record {
        label = codes "I'll think about it";
        prompt = codes "How do I handle 'let me think on it'?";
        segments = codes "SMB" ∷ [];
      })
      ∷ (record {
        label = codes "Does it integrate with X?";
        prompt = codes "How do I handle 'does it integrate with the tools we already use?'";
        segments = codes "SMB" ∷ [];
      })
      ∷ [];
}

abbrev pub templates : List Template
templates = b2b_saas ∷ smb_focused ∷ []
